-- ===== src/Entrypoint/Quoting.antt =====
-- A quoted word is read back by a shell (internal/controller/entrypoint.go, `shellQuote`).
use Prim.Native.Char.{Char, code}
use text.Mathlib.TextEquality.{Char-path}
use text.Mathlib.TextLemmas.{nil-append, cons-append, append_assoc}
use kahuna_k8s_operator.Common.{
  ◌==◌, ◌≡◌, refl, ap, ◌∙◌, String, ◌<>◌, true, Option, none, some, Bool-cases, if◌then◌else◌, inl,
  inr, arith,
}
use kahuna_k8s_operator.Entrypoint.{escape, shell_quote}

-- Where a POSIX shell is in a word: outside quotes, inside single quotes, after a backslash.
pub data Mode : Type 0 where
  bare quoted escaped : Mode

abbrev prefixed : Char → Option String → Option String
prefixed c none = none
prefixed c (some s) = some (String.◌∷◌ c s)

-- The text that a word of these characters stands for, as far as quoting goes.
unfoldable pub read_word : Mode → String → Option String
read_word bare String.[] = some ""
read_word quoted String.[] = none
read_word escaped String.[] = none
read_word bare (String.◌∷◌ c s) =
    let unquoted = read_word bare s in
    let quotes = read_word quoted s in
    let escapes = read_word escaped s in
    if code c == 39 then quotes else if code c == 92 then escapes else prefixed c unquoted
read_word quoted (String.◌∷◌ c s) =
    let closes = read_word bare s in
    let stays = read_word quoted s in if code c == 39 then closes else prefixed c stays
read_word escaped (String.◌∷◌ c s) = prefixed c (read_word bare s)

is_quote : (c : Char) → (code c == 39) ≡ true → "'" ≡ c
is_quote c e = Char-path "'" c (ground arith)

-- The four characters that stand for a quote, inside a quoted text.
read_word-escaped_quote :
    (t : String) → read_word quoted ("'\\''" <> t) ≡ prefixed "'" (read_word quoted t)
unfolding read_word
read_word-escaped_quote t =
    rw
      (
        cons-append "'" "\\''" t,
        cons-append "\\" "''" t,
        cons-append "'" "'" t,
        cons-append "'" "" t,
        nil-append t,
      )
      refl

read_word-escape : (s : String) → read_word quoted (escape s <> "'") ≡ some s
unfolding read_word escape
read_word-escape String.[] = refl
read_word-escape (String.◌∷◌ c s) = elim (Bool-cases (code c == 39)) [
  | inl quote ↦ rw quote (
      rw (append_assoc "'\\''" (escape s) "'") (
        read_word-escaped_quote (escape s <> "'")
        ∙ ap (prefixed "'") (read_word-escape s)
        ∙ ap (λ d. some (String.◌∷◌ d s)) (is_quote c quote)))
  | inr plain ↦
      rw plain (rw (cons-append c (escape s) "'") (rw (plain, read_word-escape s, read_word) refl))
]

-- A shell reads a quoted text back as the text.
pub shell_quote_lem : (s : String) → read_word bare (shell_quote s) ≡ some s
unfolding read_word shell_quote
shell_quote_lem s =
    rw (cons-append "'" "" (escape s <> "'"))
      (rw (nil-append (escape s <> "'")) (read_word-escape s))
