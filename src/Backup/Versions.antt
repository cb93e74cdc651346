-- ===== src/Backup/Versions.antt =====
-- The release in an image's tag is read back (internal/controller/backup.go, `imageVersion`).
use text.Mathlib.TextLemmas.{nil-append, cons-append, append-nil}
use kahuna_k8s_operator.Common.{
  ℕ, ◌^◌, ◌<◌, ◌≡◌, ◌≢◌, ◌⊎◌, refl, sym, ap, ◌∙◌, String, ◌<>◌, Bool, true, false, not, ◌||◌,
  Option, none, some, arith,
}
use kahuna_k8s_operator.Common.Decimal.{
  decimal, is_digit, all_digits, decimal-all_digits, decimal-is_cons, is_cons, atoi-decimal,
}
use kahuna_k8s_operator.Backup.Images.{
  before_at, after_colon, holds_code, span_digits, some_digits, dot, drop_v, number, read_version,
  image_version,
}

-- A text of digits and dots, after an optional `v`.
abbrev pub dotted : ℕ → ℕ → ℕ → String
dotted a b c = decimal a <> ("." <> (decimal b <> ("." <> decimal c)))

abbrev pub release_tag : Bool → ℕ → ℕ → ℕ → String
release_tag true a b c = "v" <> dotted a b c
release_tag false a b c = dotted a b c

abbrev pub starts_plain : String → Bool
starts_plain String.[] = true
starts_plain (String.◌∷◌ c s) = not (is_digit c)

pub span_digits-append :
    (d rest : String)
    → all_digits d ≡ true
    → starts_plain rest ≡ true
    → span_digits (d <> rest) ≡ (d, rest)
unfolding span_digits
span_digits-append String.[] String.[] h k = rw (nil-append "") refl
span_digits-append String.[] (String.◌∷◌ c s) h k = rw (nil-append (String.◌∷◌ c s)) (ground arith)
span_digits-append (String.◌∷◌ c d) rest h k =
    rw (cons-append c d rest, span_digits-append d rest (ground arith) k) (ground arith)

pub some_digits-decimal :
    (n : ℕ) (rest : String) → some_digits (decimal n, rest) ≡ some (decimal n, rest)
some_digits-decimal n rest = not_empty (decimal n) (decimal-is_cons n)
  where
    not_empty : (d : String) → is_cons d ≡ true → some_digits (d, rest) ≡ some (d, rest)
    not_empty String.[] h = cc
    not_empty (String.◌∷◌ c d) h = refl

drop_v-append :
    (d rest : String) → is_cons d ≡ true → all_digits d ≡ true → drop_v (d <> rest) ≡ d <> rest
drop_v-append String.[] rest c h = cc
drop_v-append (String.◌∷◌ c d) rest _ h = rw (cons-append c d rest) (ground arith)

drop_v-release_tag : (v : Bool) (a b c : ℕ) → drop_v (release_tag v a b c) ≡ dotted a b c
drop_v-release_tag true a b c =
    rw (cons-append "v" "" (dotted a b c), nil-append (dotted a b c)) refl
drop_v-release_tag false a b c =
    drop_v-append (decimal a) ("." <> (decimal b <> ("." <> decimal c))) (decimal-is_cons a)
      (decimal-all_digits a)

dot-append : (s : String) → dot ("." <> s) ≡ some s
dot-append s = rw (cons-append "." "" s, nil-append s) refl

starts_plain-dot : (s : String) → starts_plain ("." <> s) ≡ true
starts_plain-dot s = rw (cons-append "." "" s) refl

-- The digits of a printed number before a dot, or at the end.
span_digits-decimal :
    (n : ℕ) (s : String) → span_digits (decimal n <> ("." <> s)) ≡ (decimal n, "." <> s)
span_digits-decimal n s =
    span_digits-append (decimal n) ("." <> s) (decimal-all_digits n) (starts_plain-dot s)

span_digits-last : (n : ℕ) → span_digits (decimal n) ≡ (decimal n, "")
span_digits-last n =
    ap span_digits (sym (append-nil (decimal n)))
    ∙ span_digits-append (decimal n) "" (decimal-all_digits n) refl

pub number-decimal : (n : ℕ) → n < 2 ^ 63 → number (decimal n) ≡ some n
number-decimal n h = rw (atoi-decimal n h) refl

read_version-release_tag :
    (v : Bool) (a b c : ℕ)
    → a < 2 ^ 63
    → b < 2 ^ 63
    → c < 2 ^ 63
    → read_version (release_tag v a b c) ≡ some (a, b, c)
unfolding read_version
read_version-release_tag v a b c ha hb hc =
    rw
      (
        drop_v-release_tag v a b c,
        span_digits-decimal a (decimal b <> ("." <> decimal c)),
        some_digits-decimal a ("." <> (decimal b <> ("." <> decimal c))),
        dot-append (decimal b <> ("." <> decimal c)),
        span_digits-decimal b (decimal c),
        some_digits-decimal b ("." <> decimal c),
        dot-append (decimal c),
        span_digits-last c,
        some_digits-decimal c "",
        number-decimal a ha,
        number-decimal b hb,
        number-decimal c hc,
      )
      refl

holds_code-append :
    (k : ℕ) (s t : String) → holds_code k (s <> t) ≡ (holds_code k s || holds_code k t)
holds_code-append k String.[] t = rw (nil-append t) refl
holds_code-append k (String.◌∷◌ c s) t =
    rw (cons-append c s t, holds_code-append k s t) (ground arith)

-- A character that stands in no release tag.
abbrev IsForeign : ℕ → Type 0
IsForeign k = ((k < 46) ⊎ ((k ≡ 47) ⊎ (57 < k))) × (k ≢ 118)

holds_code-digits :
    (k : ℕ) (s : String) → IsForeign k → all_digits s ≡ true → holds_code k s ≡ false
holds_code-digits k String.[] f h = refl
holds_code-digits k (String.◌∷◌ c s) f h = ground (arith, holds_code-digits k s f)

holds_code-dotted : (k a b c : ℕ) → IsForeign k → holds_code k (dotted a b c) ≡ false
holds_code-dotted k a b c f =
    rw
      (
        holds_code-append k (decimal a) ("." <> (decimal b <> ("." <> decimal c))),
        holds_code-append k "." (decimal b <> ("." <> decimal c)),
        holds_code-append k (decimal b) ("." <> decimal c),
        holds_code-append k "." (decimal c),
        holds_code-digits k (decimal a) f (decimal-all_digits a),
        holds_code-digits k (decimal b) f (decimal-all_digits b),
        holds_code-digits k (decimal c) f (decimal-all_digits c),
      )
      (ground arith)

holds_code-release_tag :
    (k : ℕ) (v : Bool) (a b c : ℕ) → IsForeign k → holds_code k (release_tag v a b c) ≡ false
holds_code-release_tag k false a b c f = holds_code-dotted k a b c f
holds_code-release_tag k true a b c f =
    rw (holds_code-append k "v" (dotted a b c), holds_code-dotted k a b c f) (ground arith)

after_colon-none : (s : String) → holds_code 58 s ≡ false → after_colon s ≡ none
unfolding after_colon
after_colon-none String.[] h = refl
after_colon-none (String.◌∷◌ c s) h = ground (arith, after_colon-none s)

after_colon-append :
    (s t : String) → holds_code 58 t ≡ false → after_colon (s <> (":" <> t)) ≡ some t
unfolding after_colon
after_colon-append String.[] t h =
    rw (nil-append (":" <> t), cons-append ":" "" t, nil-append t, after_colon-none t h) refl
after_colon-append (String.◌∷◌ c s) t h =
    rw (cons-append c s (":" <> t), after_colon-append s t h) refl

before_at-whole : (s : String) → holds_code 64 s ≡ false → before_at s ≡ s
unfolding before_at
before_at-whole String.[] h = refl
before_at-whole (String.◌∷◌ c s) h = ground (arith, before_at-whole s)

before_at-append : (s d : String) → holds_code 64 s ≡ false → before_at (s <> ("@" <> d)) ≡ s
unfolding before_at
before_at-append String.[] d h = rw (nil-append ("@" <> d), cons-append "@" "" d) refl
before_at-append (String.◌∷◌ c s) d h =
    rw (cons-append c s ("@" <> d)) (ground (arith, before_at-append s d))

-- An image by its tag, or by its tag and its digest.
abbrev pub image_text : String → String → Option String → String
image_text repository tag none = repository <> (":" <> tag)
image_text repository tag (some digest) = (repository <> (":" <> tag)) <> ("@" <> digest)

before_at-image_text :
    (repository tag : String) (digest : Option String)
    → holds_code 64 repository ≡ false
    → holds_code 64 tag ≡ false
    → before_at (image_text repository tag digest) ≡ repository <> (":" <> tag)
before_at-image_text repository tag digest h k = by_digest digest
  where
    plain : holds_code 64 (repository <> (":" <> tag)) ≡ false
    plain =
        rw (holds_code-append 64 repository (":" <> tag), holds_code-append 64 ":" tag, h, k) refl

    by_digest :
        (o : Option String) → before_at (image_text repository tag o) ≡ repository <> (":" <> tag)
    by_digest none = before_at-whole (repository <> (":" <> tag)) plain
    by_digest (some d) = before_at-append (repository <> (":" <> tag)) d plain

-- From an image of any repository, registry port included, with a tag `1.2.3` or `v1.2.3` and with or
-- without a digest, the three numbers of the release are read back.
pub image_version-image_text :
    (repository : String) (v : Bool) (a b c : ℕ) (digest : Option String)
    → holds_code 64 repository ≡ false
    → a < 2 ^ 63
    → b < 2 ^ 63
    → c < 2 ^ 63
    → image_version (image_text repository (release_tag v a b c) digest) ≡ some (a, b, c)
unfolding image_version
image_version-image_text repository v a b c digest h ha hb hc =
    rw
      (
        before_at-image_text repository (release_tag v a b c) digest h
            (holds_code-release_tag 64 v a b c (omega arith)),
        after_colon-append repository (release_tag v a b c)
            (holds_code-release_tag 58 v a b c (omega arith)),
        holds_code-release_tag 47 v a b c (omega arith),
      )
      (read_version-release_tag v a b c ha hb hc)
