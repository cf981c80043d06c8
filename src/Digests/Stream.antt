-- ===== src/Digests/Stream.antt =====
-- What the bytes that enter the digest of a source tree tell of it.
use ray_dispatcher.Base.{
  ℕ, zero, suc, ◌+◌, ◌*◌, ◌≤◌, ◌<◌, ltb, Bool, true, ◌&&◌, ◌||◌, ◌==◌, ◌≡◌, ◌≢◌, refl, sym, ap, ◌∙◌,
  subst, false, List, [], ◌∷◌, ◌++◌, All, All-append, Bool-cases, inl, inr, not, arith, Str, octal,
}
use ray_dispatcher.Digests.{SourceFile, Content, link, file, body, source_stream}

abbrev pub NoNul : Str → Type 0
NoNul s = All (λ c. (c == 0) ≡ false) s

-- A link's target, and a file's bytes, without NUL; of a file the owner has some permission.
abbrev pub IsPlain : Content → Type 0
IsPlain (link target) = NoNul target
IsPlain (file mode bytes) = (64 ≤ mode) × (mode < 512) × NoNul bytes

-- A tree without NUL bytes in its paths, its targets and its files.
abbrev pub IsText : List SourceFile → Type 0
IsText fs = All (λ (f : SourceFile). NoNul f.rel × IsPlain f.content) fs

-- The number that octal digits stand for, from the one that stands before them.
abbrev value : ℕ → Str → ℕ
value n [] = n
value n (c ∷ s) = value (8 * n + c) s

-- The digits of three places, from their codes.
abbrev three : Str → Bool
three (a ∷ b ∷ c ∷ []) = not (a == 0) && (not (b == 0) && not (c == 0))
three _ = false

abbrev checks_mode : ℕ → Bool
checks_mode n = ltb n 64 || (three (octal n) && value 0 (octal n) == n + 3504)

abbrev all_below : (ℕ → Bool) → ℕ → Bool
all_below f zero = true
all_below f (suc n) = f n && all_below f n

all_below_lem : (f : ℕ → Bool) (n k : ℕ) → all_below f n ≡ true → k < n → f k ≡ true
all_below_lem f zero k h lt = absurd (omega arith)
all_below_lem f (suc n) k h lt = elim (Bool-cases (k == n)) [
  | inl same ↦ let e : k ≡ n = ground arith in subst (λ x. f x ≡ true) (sym e) (ground arith)
  | inr other ↦ all_below_lem f n k (ground arith) (ground arith)
]

-- The modes below 512, by trying each.
modes_lem : all_below checks_mode 512 ≡ true
unfolding octal
modes_lem = refl

-- The three digits of a mode, and that the mode is known by them.
record Digits (n : ℕ) : Type 0 where
  a : ℕ
  b : ℕ
  c : ℕ
  shape : octal n ≡ a ∷ b ∷ c ∷ []
  plain : NoNul (octal n)
  known : value 0 (octal n) ≡ n + 3504

three-shape :
    (s : Str) → three s ≡ true → NoNul s × (a : ℕ) × (b : ℕ) × (c : ℕ) × (s ≡ a ∷ b ∷ c ∷ [])
three-shape [] h = ground arith
three-shape (a ∷ []) h = ground arith
three-shape (a ∷ b ∷ []) h = ground arith
three-shape (a ∷ b ∷ c ∷ []) h = ((ground arith, (ground arith, (ground arith, tt))), a, b, c, refl)
three-shape (a ∷ b ∷ c ∷ d ∷ s) h = ground arith

digits : (n : ℕ) → 64 ≤ n → n < 512 → Digits n
digits n low high =
    let h = all_below_lem checks_mode 512 n modes_lem high in
    let is_three : three (octal n) ≡ true = ground arith in
    let known : value 0 (octal n) ≡ n + 3504 = ground arith in
    let (plain, a, b, c, shape) = three-shape (octal n) is_three in
    record { a = a; b = b; c = c; shape = shape; plain = plain; known = known }

three_cut :
    (a b c d e f : ℕ) (x y : Str)
    → (a ∷ b ∷ c ∷ []) ++ x ≡ (d ∷ e ∷ f ∷ []) ++ y
    → ((a ∷ b ∷ c ∷ []) ≡ (d ∷ e ∷ f ∷ [])) × (x ≡ y)
three_cut a b c d e f x y q = ground arith

octal_cut :
    (m n : ℕ) (x y : Str) → Digits m → Digits n → octal m ++ x ≡ octal n ++ y → (m ≡ n) × (x ≡ y)
octal_cut m n x y p q e =
    let at = ap (λ s. s ++ x) (sym p.shape) ∙ e ∙ ap (λ s. s ++ y) q.shape in
    let (same, rest) = three_cut p.a p.b p.c q.a q.b q.c x y at in
    let values = ap (value 0) (p.shape ∙ same ∙ sym q.shape) in
    (omega (arith, sym p.known ∙ values ∙ q.known), rest)

body-NoNul : (f : Content) → IsPlain f → NoNul (body f)
unfolding body
body-NoNul (link target) p = (refl, p)
body-NoNul (file mode bytes) p =
    (refl, All-append (λ c. (c == 0) ≡ false) (octal mode) bytes (digits mode p.0 p.1).plain p.2)

body_injective : (f g : Content) → IsPlain f → IsPlain g → body f ≡ body g → f ≡ g
unfolding body
body_injective (link s) (link t) p q e = ap link (ground arith)
body_injective (link s) (file n c) p q e = ground arith
body_injective (file m b) (link t) p q e = ground arith
body_injective (file m b) (file n c) p q e =
    let tail : octal m ++ b ≡ octal n ++ c = ground arith in
    let (mode, bytes) = octal_cut m n b c (digits m p.0 p.1) (digits n q.0 q.1) tail in
    ap (λ k. file k b) mode ∙ ap (file n) bytes

cut : (a b x y : Str) → NoNul a → NoNul b → a ++ 0 ∷ x ≡ b ++ 0 ∷ y → (a ≡ b) × (x ≡ y)
cut [] [] x y p q e = ground arith
cut [] (d ∷ b) x y p q e = ground arith
cut (c ∷ a) [] x y p q e = ground arith
cut (c ∷ a) (d ∷ b) x y p q e = ground (arith, cut a b x y p.1 q.1)

no_stream : (a x : Str) → [] ≢ a ++ 0 ∷ x
no_stream [] x e = ground arith
no_stream (c ∷ a) x e = ground arith

source_file : Str → Content → SourceFile
source_file r c = record { rel = r; content = c }

-- Two source trees that feed the same bytes to the hash are the same, file by file: the same paths in
-- the same order, the same targets of links, the same modes and the same bytes. This is for trees
-- without NUL bytes, whose files give their owner some permission.
pub source_stream_injective :
    (fs gs : List SourceFile)
    → IsText fs
    → IsText gs
    → source_stream fs ≡ source_stream gs
    → fs ≡ gs
unfolding source_stream source_file
source_stream_injective [] [] p q e = refl
source_stream_injective [] (g ∷ gs) p q e =
    absurd (no_stream g.rel (body g.content ++ 0 ∷ source_stream gs) e)
source_stream_injective (f ∷ fs) [] p q e =
    absurd (no_stream f.rel (body f.content ++ 0 ∷ source_stream fs) (sym e))
source_stream_injective (f ∷ fs) (g ∷ gs) p q e =
    let (rel, rest) =
      cut f.rel g.rel (body f.content ++ 0 ∷ source_stream fs)
        (body g.content ++ 0 ∷ source_stream gs) p.0.0 q.0.0 e in
    let (bytes, more) =
      cut (body f.content) (body g.content) (source_stream fs) (source_stream gs)
        (body-NoNul f.content p.0.1) (body-NoNul g.content q.0.1) rest in
    let content = body_injective f.content g.content p.0.1 q.0.1 bytes in
    ap (λ r. source_file r f.content ∷ fs) rel
    ∙ ap (λ c. source_file g.rel c ∷ fs) content
    ∙ ap (λ rs. g ∷ rs) (source_stream_injective fs gs p.1 q.1 more)
