-- ===== src/DarkLaunch/Service.antt =====
-- The language of the service names' pattern, by derivations, and its decision.
use crank4go.Base.{
  ℕ, ◌≡◌, refl, ◌↔◌, ◌⊎◌, inl, inr, Bool, true, ◌||◌, [], ◌∷◌, ◌++◌, arith, Text, ◌==◌, Bool-cases,
}
use crank4go.DarkLaunch.{is_valid_service, is_letter, is_word, all_name_bytes}

pub data Regex : Type 0 where
  class : (ℕ → Bool) → Regex
  seq alt : Regex → Regex → Regex
  star plus opt : Regex → Regex

-- A text that is cut into pieces of a language.
pub data Star (P : Text → Type 0) : Text → Type 0 where
  stop : Star P []
  more : (s u w : Text) → w ≡ s ++ u → P s → Star P u → Star P w

-- The texts that an expression matches whole.
abbrev pub Matches : Regex → Text → Type 0
Matches (class p) w = (c : ℕ) × (w ≡ c ∷ []) × (p c ≡ true)
Matches (seq r t) w = (s : Text) × (u : Text) × (w ≡ s ++ u) × Matches r s × Matches t u
Matches (alt r t) w = Matches r w ⊎ Matches t w
Matches (star r) w = Star (Matches r) w
Matches (plus r) w = (s : Text) × (u : Text) × (w ≡ s ++ u) × Matches r s × Star (Matches r) u
Matches (opt r) w = (w ≡ []) ⊎ Matches r w

abbrev byte : ℕ → Regex
byte b = class (λ c. c == b)

-- `[a-zA-Z]+((-|_)?\w*)*`
abbrev word_block : Regex
word_block = seq (opt (alt (byte b'-') (byte b'_'))) (star (class is_word))

abbrev pub service_pattern : Regex
service_pattern = seq (plus (class is_letter)) (star word_block)

names-append :
    (s u : Text)
    → all_name_bytes s ≡ true
    → all_name_bytes u ≡ true
    → all_name_bytes (s ++ u) ≡ true
unfolding all_name_bytes
names-append [] u h k = k
names-append (c ∷ s) u h k = ground (arith, names-append s u (ground arith) k)

star_names :
    {P : Text → Type 0} {w : Text}
    → ((s : Text) → P s → all_name_bytes s ≡ true)
    → Star P w
    → all_name_bytes w ≡ true
unfolding all_name_bytes
star_names h stop = refl
star_names h (more s u w e p rest) = rw e (names-append s u (h s p) (star_names h rest))

word_names : (s : Text) → Matches (class is_word) s → all_name_bytes s ≡ true
unfolding all_name_bytes
word_names s (c, e, word) = rw e (ground arith)

letter_names : (s : Text) → Matches (class is_letter) s → all_name_bytes s ≡ true
unfolding all_name_bytes is_word
letter_names s (c, e, letter) = rw e (ground arith)

mark_names : (s : Text) → Matches (opt (alt (byte b'-') (byte b'_'))) s → all_name_bytes s ≡ true
unfolding all_name_bytes is_word
mark_names s (inl e) = rw e
mark_names s (inr (inl (c, e, mark))) = rw e (ground arith)
mark_names s (inr (inr (c, e, mark))) = rw e (ground arith)

block_names : (s : Text) → Matches word_block s → all_name_bytes s ≡ true
block_names w (s, u, e, mark, words) =
    rw e (names-append s u (mark_names s mark) (star_names word_names words))

is_valid_service_sound : (w : Text) → Matches service_pattern w → is_valid_service w ≡ true
unfolding is_valid_service
is_valid_service_sound w (v, u, e, (s, t, f, (c, g, letter), letters), blocks) =
    rw (e, f, g)
      (ground (
        arith,
        letter,
        names-append t u (star_names letter_names letters) (star_names block_names blocks),
      ))

names_blocks : (s : Text) → all_name_bytes s ≡ true → Star (Matches word_block) s
unfolding all_name_bytes
names_blocks [] h = stop
names_blocks (c ∷ s) h =
    more (c ∷ []) s (c ∷ s) refl (one_byte c (ground arith)) (names_blocks s (ground arith))
  where
    one_byte : (c : ℕ) → (is_word c || c == b'-') ≡ true → Matches word_block (c ∷ [])
    one_byte c h = elim (Bool-cases (is_word c)) [
      | inl word ↦ ([], c ∷ [], refl, inl refl, more (c ∷ []) [] (c ∷ []) refl (c, refl, word) stop)
      | inr other ↦ (c ∷ [], [], refl, inr (inl (c, refl, ground arith)), stop)
    ]

is_valid_service_complete : (w : Text) → is_valid_service w ≡ true → Matches service_pattern w
unfolding is_valid_service
is_valid_service_complete [] h = cc
is_valid_service_complete (c ∷ s) h = (
  c ∷ [],
  s,
  refl,
  (c ∷ [], [], refl, (c, refl, ground arith), stop),
  names_blocks s (ground arith),
)

-- The decision accepts a name exactly when the whole name is matched by `[a-zA-Z]+((-|_)?\w*)*`.
pub is_valid_service-Matches : (w : Text) → (is_valid_service w ≡ true) ↔ Matches service_pattern w
is_valid_service-Matches w = (is_valid_service_complete w, is_valid_service_sound w)
