-- ===== src/Wire/Tests.antt =====
-- The wire's theorems at concrete inputs.
use craft_client.Prelude.{ℕ, ◌≡◌, refl, true, false, List, [], ◌∷◌, ◌++◌, arith, length, inl}
use craft_client.Prelude.Results.{ok, unexpected}
use craft_client.Wire.Ops.{Op, op_code, op_hdr_size}
use craft_client.Wire.Pod.{le_bytes, encode_fields}
use craft_client.Wire.Layout.Io.{ExtentDesc}
use craft_client.Wire.Frame.{DigestCfg, ParseError, parse_message, frame_message}
use craft_client.Wire.Frame.RoundTrip.{header_of, parse_message-frame_message}
use craft_client.Wire.Frame.Prefix.{parse_message_prefix}
use craft_client.Wire.Body.{Member, plan_scatter}
use craft_client.Wire.Body.Scatter.{AllInside, places, plan_scatter_lem}

abbrev both : DigestCfg
both = record { header = true; body = true }

abbrev bare : DigestCfg
bare = record { header = false; body = false }

abbrev two_members : List Member
two_members = record { id = 11; addr = 97 ∷ [] } ∷ record { id = 12; addr = 98 ∷ 99 ∷ [] } ∷ []

abbrev two_extents : List ExtentDesc
two_extents =
    record { addr = 4096; len = 4096; hole = 0; reserved = 0 }
    ∷ record { addr = 8192; len = 4096; hole = 1; reserved = 0 }
    ∷ []

-- A keepalive header of 16 bytes; it takes no body.
abbrev keepalive_header : List ℕ
keepalive_header = 1 ∷ 0 ∷ 0 ∷ 0 ∷ 0 ∷ 0 ∷ 0 ∷ 0 ∷ 1 ∷ 0 ∷ 0 ∷ 0 ∷ 0 ∷ 0 ∷ 0 ∷ 0 ∷ []

abbrev keepalive_frame : List ℕ
keepalive_frame = 9 ∷ 0 ∷ 7 ∷ 0 ∷ 0 ∷ 0 ∷ 0 ∷ 0 ∷ keepalive_header

parse_message_example :
    let frame = frame_message [] Op.keepalive 0 7 keepalive_header [] bare in
    parse_message (frame ++ 1 ∷ 2 ∷ []) 1024 bare
    ≡ ok (record {
      hdr = header_of Op.keepalive 0 7 [];
      op_header = keepalive_header;
      body = [];
      total = length frame;
    })
unfolding op_hdr_size op_code
parse_message_example =
    parse_message-frame_message Op.keepalive 0 7 1024 keepalive_header [] (1 ∷ 2 ∷ []) bare
      (omega arith) (omega arith) refl (omega arith) (omega arith) (inl refl)

parse_message_prefix_example :
    parse_message (9 ∷ 0 ∷ 7 ∷ []) 1024 bare ≡ unexpected ParseError.incomplete
unfolding op_hdr_size op_code frame_message le_bytes encode_fields
parse_message_prefix_example =
    parse_message_prefix Op.keepalive 0 7 1024 keepalive_header [] (9 ∷ 0 ∷ 7 ∷ []) 0
      (0 ∷ 0 ∷ 0 ∷ 0 ∷ keepalive_header) bare (omega arith) (omega arith) refl (omega arith)
      (omega arith) (inl refl) refl

plan_scatter_example :
    ((plan_scatter two_extents 4096 8192).placed ≡ true → AllInside 4096 12288 two_extents)
    × (AllInside 4096 12288 two_extents
        → plan_scatter two_extents 4096 8192 ≡ record {
          runs = places false 4096 two_extents;
          holes = places true 4096 two_extents;
          placed = true;
        })
plan_scatter_example =
    plan_scatter_lem two_extents 4096 8192 (omega arith)
      ((omega arith, omega arith), ((omega arith, omega arith), tt))
