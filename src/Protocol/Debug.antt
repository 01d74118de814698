-- ===== src/Protocol/Debug.antt =====
-- protocol/cranker_protocol.go: `checkDebugHeader`, `IsDebugReq` and `IsDebugResp`.
use crank4go.Base.{
  ℕ, ◌≡◌, refl, sym, ap, ◌∙◌, ◌↔◌, inl, inr, Bool, true, false, ◌&&◌, ◌||◌, Option, none, some,
  List, [], ◌∷◌, ◌++◌, arith, Text, parts, codes, text_eq, text_eq_iff, has_prefix, split,
  split-append, split-Lacks, trim_space, Any, Lacks, ◌==◌, join, join-split, Bool-cases,
}
use crank4go.Protocol.Headers.{
  colon, cranker_protocol_debug_header, cranker_protocol_debug_header_value_enable,
}
use crank4go.Protocol.Request.{Request}
use crank4go.Protocol.Response.{Response}

-- `len(nameValue) == 2` and the test of the value.
two_parts : List Text → Bool
two_parts [] = false
two_parts (value ∷ []) = text_eq (trim_space value) cranker_protocol_debug_header_value_enable
two_parts (value ∷ more ∷ rest) = false

is_debug_line : Text → Bool
unfolding two_parts
is_debug_line line =
    has_prefix line (cranker_protocol_debug_header ++ codes ":")
    && two_parts (split colon line).others

check_lines : List Text → Bool
unfolding is_debug_line
check_lines [] = false
check_lines (line ∷ lines) = is_debug_line line || check_lines lines

-- A nil slice and an empty one are answered alike.
unfoldable pub check_debug_header : Option (List Text) → Bool
unfolding check_lines
check_debug_header none = false
check_debug_header (some headers) = check_lines headers

unfoldable pub is_debug_req : Option Request → Bool
is_debug_req none = false
is_debug_req (some r) = check_debug_header r.headers

unfoldable pub is_debug_resp : Option Response → Bool
is_debug_resp none = false
is_debug_resp (some r) = check_debug_header (some r.headers)

-- The line `X-ROUTER_DEBUG_MODE:1`, with spaces round the value allowed.
abbrev pub IsDebugLine : Text → Type 0
IsDebugLine line =
    (value : Text) × (line ≡ cranker_protocol_debug_header ++ colon ∷ value)
    × Lacks colon value
    × (trim_space value ≡ cranker_protocol_debug_header_value_enable)

has_prefix_split : (p s : Text) → has_prefix s p ≡ true → (t : Text) × (s ≡ p ++ t)
unfolding has_prefix
has_prefix_split [] s h = (s, refl)
has_prefix_split (b ∷ p) [] h = cc
has_prefix_split (b ∷ p) (c ∷ s) h =
    let (t, e) = has_prefix_split p s (ground arith) in (t, ground arith)

has_prefix-append : (p t : Text) → has_prefix (p ++ t) p ≡ true
unfolding has_prefix
has_prefix-append [] t = unfold has_prefix in refl
has_prefix-append (b ∷ p) t = ground (arith, has_prefix-append p t)

-- A text that lacks the separator has one part, and conversely.
Lacks-split : (sep : ℕ) (s : Text) → (split sep s).others ≡ [] → Lacks sep s
unfolding split
Lacks-split sep [] h = tt
Lacks-split sep (c ∷ s) h = elim (Bool-cases (c == sep)) [
  | inl e ↦ cc (rw e at h)
  | inr e ↦ (ground arith, Lacks-split sep s (rw e at h))
]

two_parts_sound :
    (first : Text) (others : List Text)
    → two_parts (first ∷ others) ≡ true
    → (others ≡ []) × (trim_space first ≡ cranker_protocol_debug_header_value_enable)
unfolding two_parts
two_parts_sound first [] h = (refl, (text_eq_iff _ _).0 h)
two_parts_sound first (more ∷ rest) h = cc

value_sound :
    (value : Text)
    → two_parts (parts (split colon value)) ≡ true
    → Lacks colon value × (trim_space value ≡ cranker_protocol_debug_header_value_enable)
value_sound value h =
    let (one, enabled) = two_parts_sound (split colon value).first (split colon value).others h in
    let whole : (split colon value).first ≡ value =
      ap (join colon (split colon value).first) (sym one) ∙ join-split colon value in
    (Lacks-split colon value one, ap trim_space (sym whole) ∙ enabled)

split-debug :
    (value : Text)
    → (split colon (cranker_protocol_debug_header ++ colon ∷ value)).others
      ≡ parts (split colon value)
split-debug value = rw (split-append colon cranker_protocol_debug_header value (omega arith))

is_debug_line_sound : (line : Text) → is_debug_line line ≡ true → IsDebugLine line
unfolding is_debug_line
is_debug_line_sound line h =
    let (value, e) =
      has_prefix_split (cranker_protocol_debug_header ++ codes ":") line (ground arith) in
    let two : two_parts (split colon line).others ≡ true = ground arith in
    let (lacks, enabled) = value_sound value (
      ap two_parts (sym (ap (λ (s : Text). (split colon s).others) e ∙ split-debug value)) ∙ two) in
    (value, e, lacks, enabled)

is_debug_line_complete : (line : Text) → IsDebugLine line → is_debug_line line ≡ true
unfolding is_debug_line two_parts
is_debug_line_complete line (value, e, lacks, enabled) =
    rw
      (
        e,
        has_prefix-append (cranker_protocol_debug_header ++ codes ":") value,
        split-debug value,
        split-Lacks colon value lacks,
      )
      ((text_eq_iff _ _).1 enabled)

-- The debug test passes exactly when some header line is `X-ROUTER_DEBUG_MODE:` followed by a value
-- with no colon that is `1` once the spaces round it are trimmed.
pub check_debug_header-Any :
    (hs : List Text) → (check_debug_header (some hs) ≡ true) ↔ Any IsDebugLine hs
unfolding check_debug_header
check_debug_header-Any [] = (λ h. cc, λ h. absurd h)
check_debug_header-Any (line ∷ hs) = (
  λ h. elim (Bool-cases (is_debug_line line)) [
    | inl e ↦ inl (is_debug_line_sound line e)
    | inr e ↦ inr ((check_debug_header-Any hs).0 (ground arith))
  ],
  λ h. elim h [
    | inl d ↦ rw (is_debug_line_complete line d)
    | inr d ↦ ground (arith, (check_debug_header-Any hs).1 d)
  ],
)
