-- ===== src/Wire/Body.antt =====
-- The variable-length bodies: members, dLSN lists, extents and their placement (`put_member`,
-- `decode_members`, `decode_lsns`, `decode_extents`, `plan_scatter`, `framed_body_max`).
pub mod RoundTrip
pub mod Scatter
use craft_client.Prelude.{
  ℕ, zero, suc, ◌+◌, ◌-◌, ◌*◌, ◌/◌, ◌%◌, ◌^◌, ◌==◌, Bool, true, false, ◌||◌, Option, none, some,
  List, [], ◌∷◌, ◌++◌, ltb, if◌then◌else◌, length, take, drop,
}
use craft_client.Wire.Pod.{decode, size_of, le_bytes, le_value}
use craft_client.Wire.Layout.Io.{ExtentDesc, extent_desc_pod}
use craft_client.Wire.Frame.{subspan}

-- `addr` is the text's bytes.
pub record Member : Type 0 where
  pub id : ℕ
  pub addr : List ℕ

unfoldable pub put_member : List ℕ → Member → List ℕ
put_member out m = out ++ le_bytes 16 m.id ++ le_bytes 2 (length m.addr % 2 ^ 16) ++ m.addr

-- The loop: `count` members are still to be read, from `off` on.
unfoldable pub decode_members_from : List ℕ → ℕ → ℕ → List Member → Option (List Member)
decode_members_from body zero off out = some out
decode_members_from body (suc count) off out =
    let alen = le_value (subspan body (off + 16) 2) in
    let m : Member = record {
      id = le_value (subspan body off 16);
      addr = subspan body (off + 16 + 2) alen;
    } in
    let rest = decode_members_from body count (off + 16 + 2 + alen) (out ++ m ∷ []) in
    if ltb (length body) (off + 16 + 2)
    then none
    else if ltb (length body) (off + 16 + 2 + alen)
    then none
    else rest

unfoldable pub decode_members : List ℕ → ℕ → Option (List Member)
unfolding decode_members_from
decode_members body count = decode_members_from body count 0 []

-- `memcpy` of `count` int64 values.
unfoldable pub copy_lsns : List ℕ → ℕ → List ℕ
copy_lsns bytes zero = []
copy_lsns bytes (suc count) = le_value (take 8 bytes) ∷ copy_lsns (drop 8 bytes) count

unfoldable pub decode_lsns : List ℕ → ℕ → Option (List ℕ)
unfolding copy_lsns
decode_lsns body count =
    let need = count * 8 in if ltb (length body) need then none else some (copy_lsns body count)

unfoldable pub copy_extents : List ℕ → ℕ → List ExtentDesc
copy_extents bytes zero = []
copy_extents bytes (suc count) =
    decode ExtentDesc bytes ∷ copy_extents (drop (size_of ExtentDesc) bytes) count

unfoldable pub decode_extents : List ℕ → ℕ → Option (List ExtentDesc)
unfolding copy_extents
decode_extents body count =
    let need = count * size_of ExtentDesc in
    if ltb (length body) need then none else some (copy_extents body count)

pub record ScatterPlan : Type 0 where
  pub runs : List (ℕ × ℕ)
  pub holes : List (ℕ × ℕ)
  pub placed : Bool

-- The range check of one extent; `e_end` wraps as uint64_t.
abbrev pub out_of_range : ExtentDesc → ℕ → ℕ → Bool
out_of_range e req_addr req_end =
    let e_end = (e.addr + e.len) % 2 ^ 64 in
    ltb e_end e.addr || ltb e.addr req_addr || ltb req_end e_end

-- `emplace_back` on the list that `hole` picks.
unfoldable pub place : ScatterPlan → ExtentDesc → ℕ → ScatterPlan
place p e req_addr =
    let off = e.addr - req_addr in
    if e.hole == 0
    then record p { runs = p.runs ++ (off, e.len) ∷ [] }
    else record p { holes = p.holes ++ (off, e.len) ∷ [] }

-- The loop over the extents.
unfoldable pub scatter_from : ScatterPlan → List ExtentDesc → ℕ → ℕ → ScatterPlan
scatter_from p [] req_addr req_end = record p { placed = true }
scatter_from p (e ∷ es) req_addr req_end =
    let rest = scatter_from (place p e req_addr) es req_addr req_end in
    if out_of_range e req_addr req_end then p else rest

unfoldable pub plan_scatter : List ExtentDesc → ℕ → ℕ → ScatterPlan
unfolding scatter_from place
plan_scatter extents req_addr req_len =
    scatter_from (record { runs = []; holes = []; placed = false }) extents req_addr
      ((req_addr + req_len) % 2 ^ 64)

-- uint32_t arithmetic, wrap-around included.
unfoldable pub framed_body_max : ℕ → ℕ → ℕ
framed_body_max payload lba =
    let blocks = if lba == 0 then 0 else (payload + lba - 1) % 2 ^ 32 / lba in
    (payload + blocks * size_of ExtentDesc) % 2 ^ 32
