-- ===== src/Base/Split.antt =====
-- strings.Split at one byte, and joining the parts again.
use Prim.Native.Nat.{ℕ}
use mathlib.Core.Path.{◌≡◌, refl, ap, ap₂, sym, ◌∙◌}
use mathlib.Core.Logic.{inl, inr}
use mathlib.Core.List.{List, [], ◌∷◌, ◌++◌, append_assoc}
use native.Mathlib.Omega.{arith}
use crank4go.Base.Tests.{◌==◌, if◌then◌else◌, ==_iff, Bool-cases}
use crank4go.Base.Lists.{Lacks, All, but_last, last}
use crank4go.Base.Strings.{Text}

-- The parts of a text: there is always a first one.
pub record Parts : Type 0 where
  pub first : Text
  pub others : List Text

abbrev pub parts : Parts → List Text
parts p = p.first ∷ p.others

module _ (sep : ℕ) where
  unfoldable pub split : Text → Parts
  split [] = record { first = []; others = [] }
  split (c ∷ s) =
      let rest = split s in
      if c == sep
      then record { first = []; others = parts rest }
      else record rest { first = c ∷ rest.first }

  -- Every part with the separator behind it.
  abbrev pub terminated : List Text → Text
  terminated [] = []
  terminated (p ∷ ps) = p ++ sep ∷ terminated ps

  abbrev pub join : Text → List Text → Text
  join p [] = p
  join p (q ∷ qs) = p ++ sep ∷ join q qs

  join-cons : (c : ℕ) (p : Text) (ps : List Text) → join (c ∷ p) ps ≡ c ∷ join p ps
  join-cons c p [] = refl
  join-cons c p (q ∷ qs) = refl

  -- Joining the parts of a split gives the text back.
  pub join-split : (s : Text) → join (split s).first (split s).others ≡ s
  unfolding split
  join-split [] = refl
  join-split (c ∷ s) = elim (Bool-cases (c == sep)) [
    | inl e ↦ rw e (ap₂ ◌∷◌ (sym ((==_iff c sep).0 e)) (join-split s))
    | inr e ↦ rw e (join-cons c _ _ ∙ ap (◌∷◌ c) (join-split s))
  ]

  pub join-last : (p : Text) (ps : List Text) → join p ps ≡ terminated (but_last p ps) ++ last p ps
  join-last p [] = refl
  join-last p (q ∷ qs) = rw (join-last q qs, append_assoc)

  -- A part that lacks the separator is split off whole.
  pub split-append :
      (p rest : Text)
      → Lacks sep p
      → split (p ++ sep ∷ rest) ≡ record { first = p; others = parts (split rest) }
  unfolding split
  split-append [] rest h = ground arith
  split-append (c ∷ p) rest (hc, hp) = ground (arith, split-append p rest hp)

  pub split-Lacks : (p : Text) → Lacks sep p → split p ≡ record { first = p; others = [] }
  unfolding split
  split-Lacks [] h = refl
  split-Lacks (c ∷ p) (hc, hp) = ground (arith, split-Lacks p hp)

  pub split-terminated :
      (ps : List Text) (rest : Text)
      → All (Lacks sep) ps
      → parts (split (terminated ps ++ rest)) ≡ ps ++ parts (split rest)
  split-terminated [] rest h = refl
  split-terminated (p ∷ ps) rest (hp, hps) =
      rw (append_assoc, split-append p _ hp) (ap (◌∷◌ p) (split-terminated ps rest hps))

  pub terminated-append :
      (ps qs : List Text) → terminated (ps ++ qs) ≡ terminated ps ++ terminated qs
  terminated-append [] qs = refl
  terminated-append (p ∷ ps) qs = rw (terminated-append ps qs, append_assoc)

  -- No part of a split holds the separator.
  pub split-parts-Lacks : (s : Text) → All (Lacks sep) (parts (split s))
  unfolding split
  split-parts-Lacks [] = (tt, tt)
  split-parts-Lacks (c ∷ s) = elim (Bool-cases (c == sep)) [
    | inl e ↦ rw e (tt, split-parts-Lacks s)
    | inr e ↦ rw e (((λ q. ground arith), (split-parts-Lacks s).0), (split-parts-Lacks s).1)
  ]
