-- ===== src/Entrypoint/Words.antt =====
-- The words that a shell reads in the list of the arguments that the script starts the server with
-- (internal/controller/entrypoint.go, `entrypointScript` and `shellQuote`).
use Prim.Native.Char.{Char, code}
use text.Mathlib.TextEquality.{Char-path}
use text.Mathlib.TextLemmas.{nil-append, cons-append, append_assoc, append-nil}
use kahuna_k8s_operator.Common.{
  ◌==◌, ◌||◌, ◌≡◌, refl, sym, ap, ◌∙◌, String, ◌<>◌, Bool, true, Option, none, some, List, [], ◌∷◌,
  ◌++◌, map, join, In, here, there, Bool-cases, if◌then◌else◌, inl, inr, arith,
}
use kahuna_k8s_operator.Api.{Cluster}
use kahuna_k8s_operator.Entrypoint.{escape, shell_quote}
use kahuna_k8s_operator.Entrypoint.Arguments.{static_args}
use kahuna_k8s_operator.Entrypoint.Script.{
  entrypoint_script, identity_lines, topology_lines, peer_lines, join_lines, start_lines,
}

-- Where a POSIX shell is in a list of words: before a word, in one outside quotes, inside single
-- quotes, after a backslash.
pub data Place : Type 0 where
  between bare quoted escaped : Place

abbrev adds : Char → Option (List String) → Option (List String)
adds c none = none
adds c (some []) = none
adds c (some (w ∷ ws)) = some (String.◌∷◌ c w ∷ ws)

abbrev ends_word : Option (List String) → Option (List String)
ends_word none = none
ends_word (some ws) = some ("" ∷ ws)

abbrev is_blank : Char → Bool
is_blank c = (code c == 32) || (code c == 9) || (code c == 10)

-- The words, as far as quoting goes. Past the beginning of a word, the first one is the rest of it.
unfoldable pub read_words : Place → String → Option (List String)
read_words between String.[] = some []
read_words bare String.[] = some ("" ∷ [])
read_words quoted String.[] = none
read_words escaped String.[] = none
read_words between (String.◌∷◌ c s) =
    let blank = read_words between s in
    let unquoted = read_words bare s in
    let quotes = read_words quoted s in
    let escapes = read_words escaped s in
    if is_blank c
    then blank
    else if code c == 39
    then quotes
    else if code c == 92
    then escapes
    else adds c unquoted
read_words bare (String.◌∷◌ c s) =
    let blank = read_words between s in
    let unquoted = read_words bare s in
    let quotes = read_words quoted s in
    let escapes = read_words escaped s in
    if is_blank c
    then ends_word blank
    else if code c == 39
    then quotes
    else if code c == 92
    then escapes
    else adds c unquoted
read_words quoted (String.◌∷◌ c s) =
    let closes = read_words bare s in
    let stays = read_words quoted s in if code c == 39 then closes else adds c stays
read_words escaped (String.◌∷◌ c s) = adds c (read_words bare s)

is_quote : (c : Char) → (code c == 39) ≡ true → "'" ≡ c
is_quote c e = Char-path "'" c (ground arith)

-- The four characters that stand for a quote, inside a quoted text.
read_words-escaped_quote :
    (t : String) → read_words quoted ("'\\''" <> t) ≡ adds "'" (read_words quoted t)
unfolding read_words
read_words-escaped_quote t =
    rw
      (
        cons-append "'" "\\''" t,
        cons-append "\\" "''" t,
        cons-append "'" "'" t,
        cons-append "'" "" t,
        nil-append t,
      )
      refl

-- A quoted text, up to its last quote, with what follows it.
read_words-escape :
    (s t : String) (ws : List String)
    → read_words bare t ≡ some ("" ∷ ws)
    → read_words quoted (escape s <> ("'" <> t)) ≡ some (s ∷ ws)
unfolding read_words escape
read_words-escape String.[] t ws h =
    rw (nil-append ("'" <> t), cons-append "'" "" t, nil-append t) h
read_words-escape (String.◌∷◌ c s) t ws h = elim (Bool-cases (code c == 39)) [
  | inl quote ↦ rw quote (
      rw (append_assoc "'\\''" (escape s) ("'" <> t)) (
        read_words-escaped_quote (escape s <> ("'" <> t))
        ∙ ap (adds "'") (read_words-escape s t ws h)
        ∙ ap (λ d. some (String.◌∷◌ d s ∷ ws)) (is_quote c quote)))
  | inr plain ↦ rw plain (
      rw (cons-append c (escape s) ("'" <> t))
        (rw (plain, read_words-escape s t ws h, read_words) refl))
]

read_words-shell_quote :
    (s t : String) (ws : List String)
    → read_words bare t ≡ some ("" ∷ ws)
    → read_words between (shell_quote s <> t) ≡ some (s ∷ ws)
unfolding read_words shell_quote
read_words-shell_quote s t ws h =
    rw
      (
        append_assoc "'" (escape s <> "'") t,
        append_assoc (escape s) "'" t,
        cons-append "'" "" (escape s <> ("'" <> t)),
        nil-append (escape s <> ("'" <> t)),
      )
      (read_words-escape s t ws h)

read_words-join : (xs : List String) → read_words between (join " " (map shell_quote xs)) ≡ some xs
unfolding read_words join
read_words-join [] = refl
read_words-join (x ∷ []) =
    rw (sym (append-nil (shell_quote x))) (read_words-shell_quote x "" [] refl)
read_words-join (x ∷ y ∷ xs) =
    let rest = join " " (map shell_quote (y ∷ xs)) in
    read_words-shell_quote x (" " <> rest) (y ∷ xs)
      (rw (cons-append " " "" rest, nil-append rest) (rw (read_words-join (y ∷ xs)) refl))

-- The line stands in the text, between two ends of lines or the text's own ends.
abbrev pub IsLine : String → String → Type 0
IsLine line text =
    (before after : String) × ("\n" <> (text <> "\n")
      ≡ before <> ("\n" <> (line <> ("\n" <> after))))

module _ (line : String) where
  In-IsLine : (lines : List String) → In line lines → IsLine line (join "\n" lines)
  unfolding join
  In-IsLine [] m = elim m [ ]
  In-IsLine (x ∷ []) here = ("", "", sym (nil-append ("\n" <> (line <> "\n"))))
  In-IsLine (x ∷ []) (there m) = elim m [ ]
  In-IsLine (x ∷ y ∷ r) here = (
    "",
    join "\n" (y ∷ r) <> "\n",
    rw
        (
          append_assoc line ("\n" <> join "\n" (y ∷ r)) "\n",
          append_assoc "\n" (join "\n" (y ∷ r)) "\n",
        )
        (sym (nil-append ("\n" <> (line <> ("\n" <> (join "\n" (y ∷ r) <> "\n")))))),
  )
  In-IsLine (x ∷ y ∷ r) (there m) =
      let (before, after, e) = In-IsLine (y ∷ r) m in
      (
        "\n" <> (x <> before),
        after,
        rw
            (
              append_assoc x ("\n" <> join "\n" (y ∷ r)) "\n",
              append_assoc "\n" (join "\n" (y ∷ r)) "\n",
              e,
              append_assoc "\n" (x <> before) ("\n" <> (line <> ("\n" <> after))),
              append_assoc x before ("\n" <> (line <> ("\n" <> after))),
            )
            refl,
      )

  In-right : (xs ys : List String) → In line ys → In line (xs ++ ys)
  In-right [] ys m = m
  In-right (x ∷ xs) ys m = there (In-right xs ys m)

  In-left : (xs ys : List String) → In line xs → In line (xs ++ ys)
  In-left [] ys m = elim m [ ]
  In-left (x ∷ xs) ys here = here
  In-left (x ∷ xs) ys (there m) = there (In-left xs ys m)

start_lines-In :
    (cluster : Cluster)
    → In
        ("STATIC_ARGS=(" <> (join " " (map shell_quote (static_args cluster)) <> ")"))
        (start_lines cluster)
unfolding start_lines
start_lines-In cluster = there (there (there (there (there (there (there (there (there here))))))))

-- The script has a line that sets the arguments that the server starts with, and a shell reads in its
-- list exactly the arguments that the operator made, as far as quoting goes.
pub entrypoint_script-static_args :
    (cluster : Cluster)
    → (words : String) × IsLine ("STATIC_ARGS=(" <> (words <> ")")) (entrypoint_script cluster)
      × (read_words between words ≡ some (static_args cluster))
unfolding entrypoint_script
entrypoint_script-static_args cluster =
    let words = join " " (map shell_quote (static_args cluster)) in
    let line = "STATIC_ARGS=(" <> (words <> ")") in
    (
      words,
      In-IsLine line _ (
          In-right line (identity_lines cluster) _ (
            In-right line topology_lines _ (
              In-right line peer_lines _ (
                In-right line join_lines _
                  (In-left line (start_lines cluster) ("" ∷ []) (start_lines-In cluster)))))),
      read_words-join (static_args cluster),
    )
