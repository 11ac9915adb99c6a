-- ===== src/Content/FrontMatter.antt =====
-- `loadFile` of content.go reads back the front matter and the body of a file.
use tracks.Common.{
  String, ◌≡◌, refl, sym, ap, ◌∙◌, true, false, Option, none, some, List, [], ◌∷◌, arith, nat_beq,
  if◌then◌else◌, ◌==◌, string_eq, All,
}
use Prim.Native.Char.{Char, code}
use Prim.Native.String as Text
use Prim.Native.String.{◌++◌ as append}
use text.Mathlib.TextLemmas.{cons-append, nil-append, append_assoc}
use text.Mathlib.TextEquality.{Char-path}
use tracks.Common.Result.{Result, ok, err, ◌>>=◌}
use tracks.Common.Splitting.{Avoids}
use tracks.Common.Text.{has_suffix, trim_suffix}
use tracks.Content.{
  strip_prefix, cut, in_front, separator, split_parts, second_cut, Item, front_matter, structure,
  set_fields, load_file, file_ext, ContentError, bad_front_matter,
}

-- A line that does not end with "---".
abbrev pub IsLine : String → Type 0
IsLine l = Avoids (λ n. nat_beq n b'\n') l × (has_suffix l "---" ≡ false)

-- The text of the lines.
unfoldable pub unlines : List String → String
unlines [] = ""
unlines (l ∷ ls) = append l (append "\n" (unlines ls))

dash_lem : (c : Char) → nat_beq 45 (code c) ≡ true → c ≡ "-"
dash_lem c h = Char-path c "-" (ground (arith, h))

newline_lem : (t : String) → append "\n" t ≡ Text.◌∷◌ "\n" t
newline_lem t = cons-append "\n" "" t ∙ ap (Text.◌∷◌ "\n") (nil-append t)

three_dashes :
    (c d f : Char)
    → nat_beq 45 (code c) ≡ true
    → nat_beq 45 (code d) ≡ true
    → nat_beq 45 (code f) ≡ true
    → ((Text.◌∷◌ c (Text.◌∷◌ d (Text.◌∷◌ f ""))) == "---") ≡ true
three_dashes c d f p q r = rw (dash_lem c p, dash_lem d q, dash_lem f r)

strip_prefix_line :
    (l t : String)
    → Avoids (λ n. nat_beq n b'\n') l
    → (l == "---") ≡ false
    → strip_prefix separator (append l (append "\n" t)) ≡ none
unfolding strip_prefix
strip_prefix_line Text.[] t h e = rw (nil-append, cons-append)
strip_prefix_line (Text.◌∷◌ c Text.[]) t h e =
    rw (cons-append c "" (append "\n" t), nil-append (append "\n" t), newline_lem t) (ground arith)
strip_prefix_line (Text.◌∷◌ c (Text.◌∷◌ d Text.[])) t h e =
    rw
      (
        cons-append c (Text.◌∷◌ d "") (append "\n" t),
        cons-append d "" (append "\n" t),
        nil-append (append "\n" t),
        newline_lem t,
      )
      (ground arith)
strip_prefix_line (Text.◌∷◌ c (Text.◌∷◌ d (Text.◌∷◌ f Text.[]))) t h e =
    rw
      (
        cons-append c (Text.◌∷◌ d (Text.◌∷◌ f "")) (append "\n" t),
        cons-append d (Text.◌∷◌ f "") (append "\n" t),
        cons-append f "" (append "\n" t),
        nil-append (append "\n" t),
        newline_lem t,
      )
      (ground (arith, three_dashes c d f, e))
strip_prefix_line (Text.◌∷◌ c (Text.◌∷◌ d (Text.◌∷◌ f (Text.◌∷◌ g l)))) t h e =
    rw
      (
        cons-append c (Text.◌∷◌ d (Text.◌∷◌ f (Text.◌∷◌ g l))) (append "\n" t),
        cons-append d (Text.◌∷◌ f (Text.◌∷◌ g l)) (append "\n" t),
        cons-append f (Text.◌∷◌ g l) (append "\n" t),
        cons-append g l (append "\n" t),
      )
      (ground arith)

cut_step :
    (c : Char) (s : String)
    → strip_prefix separator (Text.◌∷◌ c s) ≡ none
    → cut separator (Text.◌∷◌ c s) ≡ in_front c (cut separator s)
unfolding cut
cut_step c s h = go (strip_prefix separator (Text.◌∷◌ c s)) h
  where
    go :
        (o : Option String)
        → o ≡ none
        → elim o [ some after ↦ some ("", after) | none ↦ in_front c (cut separator s) ]
          ≡ in_front c (cut separator s)
    go o e = rw e

ended : (l : String) → has_suffix l "---" ≡ false → (l == "---") ≡ false
unfolding has_suffix
ended Text.[] h = refl
ended (Text.◌∷◌ c l) h = ground arith

rest_ended :
    (c : Char) (l : String) → has_suffix (Text.◌∷◌ c l) "---" ≡ false → has_suffix l "---" ≡ false
unfolding has_suffix
rest_ended c l h = ground arith

-- A line is passed over.
cut_line :
    (l t before after : String)
    → IsLine l
    → cut separator t ≡ some (before, after)
    → cut separator (append l (append "\n" t)) ≡ some (append l (append "\n" before), after)
cut_line Text.[] t before after h e =
    ap (cut separator) (nil-append (append "\n" t) ∙ newline_lem t)
    ∙ cut_step "\n" t (unfold strip_prefix in refl)
    ∙ ap (in_front "\n") e
    ∙ ap (λ b. some (b, after)) (sym (nil-append (append "\n" before) ∙ newline_lem before))
cut_line (Text.◌∷◌ c l) t before after h e =
    ap (cut separator) (cons-append c l (append "\n" t))
    ∙ cut_step c (append l (append "\n" t)) (
        ap (strip_prefix separator) (sym (cons-append c l (append "\n" t)))
        ∙ strip_prefix_line (Text.◌∷◌ c l) t h.0 (ended (Text.◌∷◌ c l) h.1))
    ∙ ap (in_front c) (cut_line l t before after (h.0.1, rest_ended c l h.1) e)
    ∙ ap (λ b. some (b, after)) (sym (cons-append c l (append "\n" before)))

cut-separator : (s : String) → cut separator (append separator s) ≡ some ("", s)
unfolding cut strip_prefix
cut-separator s = rw (cons-append, cons-append, cons-append, cons-append, nil-append)

cut_lines :
    (ls : List String) (body : String)
    → All IsLine ls
    → cut separator (append (unlines ls) (append separator body)) ≡ some (unlines ls, body)
unfolding unlines
cut_lines [] body h = ap (cut separator) (nil-append (append separator body)) ∙ cut-separator body
cut_lines (l ∷ ls) body h =
    ap (cut separator) (
      append_assoc l (append "\n" (unlines ls)) (append separator body)
      ∙ ap (append l) (append_assoc "\n" (unlines ls) (append separator body)))
    ∙ cut_line l (append (unlines ls) (append separator body)) (unlines ls) body h.0
        (cut_lines ls body h.1)

split_parts-unlines :
    (front : List String) (body : String)
    → All IsLine front
    → split_parts (append separator (append (unlines front) (append separator body)))
      ≡ some (unlines front, body)
unfolding split_parts
split_parts-unlines front body h =
    ap second_cut (cut-separator (append (unlines front) (append separator body)))
    ∙ cut_lines front body h

-- The item of a file with a body, by what the front matter gives.
abbrev pub item_of :
    {M : Type 0} → (name body : String) → Option (String × M) → Result ContentError (Item M)
item_of name body none = err bad_front_matter
item_of name body (some (slug, metadata)) = ok (record {
  slug = if slug == "" then trim_suffix name (file_ext name) else slug;
  body = body;
  metadata = metadata;
})

module _ {M : Type 0} (zero_item : String × M) (unmarshal : String → Option (String × M)) where
  -- A file that begins with its front matter is read back into a struct: for lines that do not end with "---", and
  -- any body, the item has the fields of the front matter, the body as it is, and the slug of the front
  -- matter or, where that is empty, the name without its extension; and a front matter that is not
  -- valid is an error.
  pub load_file-unlines :
      (name body : String) (front : List String)
      → All IsLine front
      → load_file structure zero_item unmarshal name
          (some (append separator (append (unlines front) (append separator body))))
        ≡ item_of name body (unmarshal (unlines front))
  unfolding load_file
  load_file-unlines name body front h =
      let bytes = append separator (append (unlines front) (append separator body)) in
      go (split_parts bytes) (split_parts-unlines front body h) (unmarshal (unlines front)) refl
    where
      go :
          (o : Option (String × String))
          → o ≡ some (unlines front, body)
          → (u : Option (String × M)) → unmarshal (unlines front) ≡ u
          → (front_matter structure zero_item unmarshal
                (append separator (append (unlines front) (append separator body)))
                o
              >>= λ parsed. set_fields structure zero_item unmarshal structure name parsed)
            ≡ item_of name body u
      go o e none q = rw (e, front_matter, q)
      go o e (some (slug, metadata)) q = rw (e, front_matter, q)
