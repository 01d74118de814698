-- ===== src/DarkLaunch/Address.antt =====
-- Which texts `isValidIp` accepts.
use crank4go.Base.{
  ℕ, ◌<◌, ◌≤◌, ◌≡◌, refl, sym, ◌↔◌, Bool, true, false, List, [], ◌∷◌, ◌++◌, arith, Text, split,
  split-append, split-Lacks, join, join-split, split-parts-Lacks, Lacks, All, ℤ, pos, negsuc, atoi,
  itoa, atoi-itoa, itoa-Lacks, length, text_eq, ◌==◌,
}
use crank4go.DarkLaunch.{is_valid_ip, is_group, all_groups, in_byte}

abbrev pub dot : ℕ
dot = b'.'

-- A group that `Atoi` reads as a number up to 255. A sign and leading zeros are read too.
pub record Group (s : Text) : Type 0 where
  pub value : ℕ
  pub reads : atoi s ≡ (pos value, false)
  pub in_range : value ≤ 255

in_byte_sound : (r : ℤ × Bool) → in_byte r ≡ true → (n : ℕ) × (r ≡ (pos n, false)) × (n ≤ 255)
unfolding in_byte
in_byte_sound (pos n, false) h = (n, refl, ground arith)
in_byte_sound (pos n, true) h = cc
in_byte_sound (negsuc n, false) h = ground arith
in_byte_sound (negsuc n, true) h = cc

is_group_sound : (s : Text) → is_group s ≡ true → Group s
unfolding is_group
is_group_sound [] h = cc
is_group_sound (c ∷ s) h =
    let (n, e, le) = in_byte_sound (atoi (c ∷ s)) (ground arith) in
    record { value = n; reads = e; in_range = le }

is_group_complete : (s : Text) → Group s → is_group s ≡ true
unfolding is_group in_byte atoi
is_group_complete [] g = cc g.reads
is_group_complete (c ∷ s) g = rw g.reads (ground (arith, g.in_range))

abbrev pub dotted : Text → Text → Text → Text → Text
dotted a b c d = a ++ dot ∷ (b ++ dot ∷ (c ++ dot ∷ d))

-- Four groups with dots between them.
pub record Dotted (ip : Text) : Type 0 where
  pub a : Text
  pub b : Text
  pub c : Text
  pub d : Text
  pub shape : ip ≡ dotted a b c d
  pub no_dots : Lacks dot a × Lacks dot b × Lacks dot c × Lacks dot d
  pub group_a : Group a
  pub group_b : Group b
  pub group_c : Group c
  pub group_d : Group d

groups_sound :
    (ip a : Text) (others : List Text)
    → join dot a others ≡ ip
    → All (Lacks dot) (a ∷ others)
    → (length (a ∷ others) == 4) ≡ true
    → all_groups (a ∷ others) ≡ true
    → Dotted ip
unfolding all_groups
groups_sound ip a [] e l n h = cc
groups_sound ip a (b ∷ []) e l n h = cc
groups_sound ip a (b ∷ c ∷ []) e l n h = cc
groups_sound ip a (b ∷ c ∷ d ∷ []) e (la, (lb, (lc, (ld, _)))) n h = record {
  a = a;
  b = b;
  c = c;
  d = d;
  shape = sym e;
  no_dots = (la, lb, lc, ld);
  group_a = is_group_sound a (ground arith);
  group_b = is_group_sound b (ground arith);
  group_c = is_group_sound c (ground arith);
  group_d = is_group_sound d (ground arith);
}
groups_sound ip a (b ∷ c ∷ d ∷ x ∷ more) e l n h = absurd (ground arith)

is_valid_ip_sound : (ip : Text) → is_valid_ip ip ≡ true → Dotted ip
unfolding is_valid_ip
is_valid_ip_sound ip h =
    groups_sound ip (split dot ip).first (split dot ip).others (join-split dot ip)
      (split-parts-Lacks dot ip) (ground arith) (ground arith)

dotted-not_empty : (a b c d : Text) → text_eq (dotted a b c d) [] ≡ false
unfolding text_eq
dotted-not_empty [] b c d = refl
dotted-not_empty (x ∷ a) b c d = refl

is_valid_ip_complete : (ip : Text) → Dotted ip → is_valid_ip ip ≡ true
unfolding is_valid_ip all_groups
is_valid_ip_complete ip v =
    let (la, lb, lc, ld) = v.no_dots in
    rw (
      v.shape,
      dotted-not_empty v.a v.b v.c v.d,
      split-append dot v.a _ la,
      split-append dot v.b _ lb,
      split-append dot v.c _ lc,
      split-Lacks dot v.d ld,
      is_group_complete v.a v.group_a,
      is_group_complete v.b v.group_b,
      is_group_complete v.c v.group_c,
      is_group_complete v.d v.group_d,
    )

-- A text is accepted as an address exactly when it is four groups joined by dots, each without a
-- dot and read by `Atoi` as a number from 0 to 255.
pub is_valid_ip-Dotted : (ip : Text) → (is_valid_ip ip ≡ true) ↔ Dotted ip
is_valid_ip-Dotted ip = (is_valid_ip_sound ip, is_valid_ip_complete ip)

itoa-Group : (n : ℕ) → n < 256 → Group (itoa (pos n))
itoa-Group n h = record { value = n; reads = atoi-itoa n (omega arith); in_range = omega arith }

-- The decimal form of any four bytes is accepted.
pub is_valid_ip-itoa :
    (a b c d : ℕ)
    → a < 256
    → b < 256
    → c < 256
    → d < 256
    → is_valid_ip (dotted (itoa (pos a)) (itoa (pos b)) (itoa (pos c)) (itoa (pos d))) ≡ true
is_valid_ip-itoa a b c d ha hb hc hd = is_valid_ip_complete _ (record {
  a = itoa (pos a);
  b = itoa (pos b);
  c = itoa (pos c);
  d = itoa (pos d);
  shape = refl;
  no_dots = (
    itoa-Lacks dot a (omega arith),
    itoa-Lacks dot b (omega arith),
    itoa-Lacks dot c (omega arith),
    itoa-Lacks dot d (omega arith),
  );
  group_a = itoa-Group a ha;
  group_b = itoa-Group b hb;
  group_c = itoa-Group c hc;
  group_d = itoa-Group d hd;
})
