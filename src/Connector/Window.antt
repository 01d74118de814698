-- ===== src/Connector/Window.antt =====
-- connector/: what the sockets of a connector add up to, over its heap.
pub mod Farm
pub mod Full
pub mod Replacing
pub mod Keeps
use crank4go.Base.{
  ℕ, zero, suc, ◌+◌, ◌≤◌, ◌<◌, ◌≡◌, refl, ap, inl, inr, Bool-cases, ==_iff, Bool, not, ◌&&◌, arith,
  Text, text_eq, if◌then◌else◌, ◌==◌,
}
use crank4go.Connector.Farm.{url_string}
use crank4go.Connector.Client.{ConnectorSocket, assign}

unfoldable pub count_below : (ConnectorSocket → ℕ) → ℕ → (ℕ → ConnectorSocket) → ℕ
count_below f zero heap = 0
count_below f (suc n) heap = f (heap n) + count_below f n heap

abbrev pub number : Bool → ℕ
number b = if b then 1 else 0

-- A socket that has not been replaced by another one yet.
abbrev pub unadded : ConnectorSocket → ℕ
unadded s = number (not s.new_socket_added)

-- The same, under a given URL.
abbrev pub unadded_at : Text → ConnectorSocket → ℕ
unadded_at url s = number (not s.new_socket_added && text_eq (url_string s.register_url) url)

-- One that waits for its first request, or is on the way to.
abbrev pub idle_at : Text → ConnectorSocket → ℕ
idle_at url s =
    number (not s.new_socket_added && (not s.had_error && text_eq (url_string s.register_url) url))

module _ (f : ConnectorSocket → ℕ) (p : ℕ) (s : ConnectorSocket) (heap : ℕ → ConnectorSocket) where
  pub count-above : (n : ℕ) → n ≤ p → count_below f n (assign p s heap) ≡ count_below f n heap
  unfolding count_below
  count-above zero h = refl
  count-above (suc n) h = ground (arith, count-above n)

  pub count-assign :
      (n : ℕ) → p < n → count_below f n (assign p s heap) + f (heap p) ≡ count_below f n heap + f s
  unfolding count_below
  count-assign zero h = absurd (omega arith)
  count-assign (suc n) h = ground (arith, count-assign n, count-above n)

  -- A socket that is put behind the others.
  pub count-add : count_below f (p + 1) (assign p s heap) ≡ count_below f p heap + f s
  unfolding count_below
  count-add =
      let e : p + 1 ≡ suc p = omega arith in rw e (ground (arith, count-above p (omega arith)))

pub count-has :
    (f : ConnectorSocket → ℕ) (p : ℕ) (heap : ℕ → ConnectorSocket) (n : ℕ)
    → p < n
    → f (heap p) ≤ count_below f n heap
unfolding count_below
count-has f p heap zero h = absurd (omega arith)
count-has f p heap (suc n) h = elim (Bool-cases (p == n)) [
  | inl e ↦
      let same : f (heap p) ≡ f (heap n) = ap (λ (q : ℕ). f (heap q)) ((==_iff p n).0 e) in
      omega (arith, same)
  | inr e ↦ omega (arith, count-has f p heap n (ground arith))
]

-- One weight lies below another, and so do their sums, also without the socket `p`.
pub count_mono :
    (f g : ConnectorSocket → ℕ) (heap : ℕ → ConnectorSocket) (n : ℕ)
    → ((s : ConnectorSocket) → f s ≤ g s)
    → count_below f n heap ≤ count_below g n heap
unfolding count_below
count_mono f g heap zero h = omega arith
count_mono f g heap (suc n) h = omega (arith, h (heap n), count_mono f g heap n h)

pub count_mono_without :
    (f g : ConnectorSocket → ℕ) (p : ℕ) (heap : ℕ → ConnectorSocket) (n : ℕ)
    → ((s : ConnectorSocket) → f s ≤ g s)
    → p < n
    → count_below f n heap + g (heap p) ≤ count_below g n heap + f (heap p)
unfolding count_below
count_mono_without f g p heap zero h k = absurd (omega arith)
count_mono_without f g p heap (suc n) h k = elim (Bool-cases (p == n)) [
  | inl e ↦
      let same_f : f (heap p) ≡ f (heap n) = ap (λ (q : ℕ). f (heap q)) ((==_iff p n).0 e) in
      let same_g : g (heap p) ≡ g (heap n) = ap (λ (q : ℕ). g (heap q)) ((==_iff p n).0 e) in
      omega (arith, same_f, same_g, count_mono f g heap n h)
  | inr e ↦ omega (arith, h (heap n), count_mono_without f g p heap n h (ground arith))
]
