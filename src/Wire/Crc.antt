-- ===== src/Wire/Crc.antt =====
-- CRC32C (`make_crc32c_table`, `crc32c` of src/wire.cpp) over 32-bit words as native numbers.
use Prim.Native.Nat.{bit_and, bit_xor}
use craft_client.Prelude.{
  ℕ, zero, suc, ◌+◌, ◌-◌, ◌/◌, ◌^◌, ◌<◌, ◌≡◌, refl, ◌==◌, List, [], ◌∷◌, if◌then◌else◌, get_or,
  arith,
}

crc_bit : ℕ → ℕ
crc_bit c = if bit_and c 1 == 0 then c / 2 else bit_xor 0x82F63B78 (c / 2)

crc_bits : ℕ → ℕ → ℕ
crc_bits zero c = c
crc_bits (suc k) c = crc_bits k (crc_bit c)

-- The entries for `i`, `i + 1`, … , `n` of them.
crc_entries : ℕ → ℕ → List ℕ
unfolding crc_bit crc_bits
crc_entries zero i = []
crc_entries (suc n) i = crc_bits 8 i ∷ crc_entries n (i + 1)

make_crc32c_table : List ℕ
unfolding crc_entries
make_crc32c_table = crc_entries 256 0

-- The loop over the bytes; `crc >> 8` is `crc / 256`.
crc_loop : List ℕ → ℕ → List ℕ → ℕ
crc_loop table crc [] = crc
crc_loop table crc (b ∷ bs) =
    crc_loop table (bit_xor (get_or table (bit_and (bit_xor crc b) 0xFF) 0) (crc / 256)) bs

-- On a 32-bit word `~x` is `2 ^ 32 - 1 - x`.
unfoldable pub crc32c : List ℕ → ℕ
unfolding make_crc32c_table crc_loop
crc32c bs = let table = make_crc32c_table in 0xFFFF_FFFF - crc_loop table 0xFFFF_FFFF bs

pub crc32c-lt : (bs : List ℕ) → crc32c bs < 256 ^ 4
unfolding crc32c
crc32c-lt bs = omega arith

-- The check value of the algorithm: "123456789".
abbrev check_input : List ℕ
check_input = 49 ∷ 50 ∷ 51 ∷ 52 ∷ 53 ∷ 54 ∷ 55 ∷ 56 ∷ 57 ∷ []

crc32c_check : crc32c check_input ≡ 0xE3069283
unfolding crc32c
crc32c_check = refl
