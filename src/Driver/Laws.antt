-- ===== src/Driver/Laws.antt =====
-- What a validated driver is known to support.
use cosi.Base.{true, false, List, [], ◌∷◌, ◌++◌, ◌≡◌, ◌↔◌, ◌≢◌, arith}
use mathlib.Core.List.{append-nil, append_assoc}
use cosi.Errors.{ok}
use cosi.Rpc.{ProtocolType, unknown_protocol}
use cosi.Driver.{same_protocol, supports, parse_protocols, validate_and_parse_protocols}

same_protocol_iff : (p q : ProtocolType) → (same_protocol p q ≡ true) ↔ (p ≡ q)
unfolding same_protocol
same_protocol_iff p q = ground arith

-- No protocol of the list is unknown or stands in it twice.
abbrev pub IsClean : List ProtocolType → List ProtocolType → Type 0
IsClean seen [] = Unit
IsClean seen (p ∷ ps) =
    (p ≢ unknown_protocol) × (supports seen p ≡ false) × IsClean (seen ++ p ∷ []) ps

parse_protocols_iff :
    (seen ps out : List ProtocolType)
    → (parse_protocols seen ps ≡ ok out) ↔ (IsClean seen ps × (out ≡ seen ++ ps))
unfolding parse_protocols
parse_protocols_iff seen [] out = ground (arith, append-nil seen)
parse_protocols_iff seen (p ∷ ps) out = ground (
  arith,
  same_protocol_iff p unknown_protocol,
  append_assoc seen (p ∷ []) ps,
  parse_protocols_iff (seen ++ p ∷ []) ps out,
)

-- A driver's protocol list is accepted exactly when it is not empty and holds no unknown and no
-- repeated protocol; what is stored then is the list as it was reported.
pub validate_and_parse_protocols_iff :
    (ps out : List ProtocolType)
    → (validate_and_parse_protocols ps ≡ ok out) ↔ ((ps ≢ []) × IsClean [] ps × (out ≡ ps))
unfolding validate_and_parse_protocols
validate_and_parse_protocols_iff [] out = ground arith
validate_and_parse_protocols_iff (p ∷ ps) out = ground (arith, parse_protocols_iff [] (p ∷ ps) out)
