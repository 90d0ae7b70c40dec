-- ===== src/Http/Cursor/RoundTrip.antt =====
-- What is encoded is decoded.
use Prim.Native.Char.{Char, code}
use Prim.Native.String.{◌++◌}
use text.Mathlib.TextLemmas.{cons-append, nil-append}
use quick_bite_order_service.Common.{
  Bool, String, ap, arith, nat_beq, none, not, refl, some, subst, sym, true, ◌&&◌, ◌∙◌, ◌≡◌,
}
use quick_bite_order_service.Http.Cursor.{
  cursor_parts, decode_cursor, encode_cursor, given, split_last,
}

-- No character of the text is a bar.
abbrev pub no_bar : String → Bool
no_bar String.[] = true
no_bar (String.◌∷◌ c s) = let rest = no_bar s in not (nat_beq (code c) 124) && rest

abbrev bar : Char
bar = "|"

split-no_bar : (s : String) → no_bar s ≡ true → split_last s ≡ none
unfolding split_last
split-no_bar String.[] h = refl
split-no_bar (String.◌∷◌ c String.[]) h = refl
split-no_bar (String.◌∷◌ c (String.◌∷◌ d s)) h =
    let later = split-no_bar (String.◌∷◌ d s) (ground arith) in rw later (ground arith)

bar-no_bar : (id : String) → no_bar id ≡ true → split_last (String.◌∷◌ bar id) ≡ none
unfolding split_last
bar-no_bar String.[] h = refl
bar-no_bar (String.◌∷◌ d s) h = rw (split-no_bar (String.◌∷◌ d s) h) (ground arith)

bars-no_bar :
    (id : String)
    → no_bar id ≡ true
    → split_last (String.◌∷◌ bar (String.◌∷◌ bar id)) ≡ some ("", id)
unfolding split_last
bars-no_bar id h = rw (bar-no_bar id h) refl

separated : (id : String) → "||" ++ id ≡ String.◌∷◌ bar (String.◌∷◌ bar id)
separated id =
    cons-append bar "|" id
    ∙ ap (String.◌∷◌ bar) (cons-append bar "" id ∙ ap (String.◌∷◌ bar) (nil-append id))

unfold_split :
    (c : Char) (s before after : String)
    → split_last s ≡ some (before, after)
    → split_last (String.◌∷◌ c s) ≡ some (String.◌∷◌ c before, after)
unfolding split_last
unfold_split c s before after h = rw h refl

split-append :
    (value t id : String)
    → split_last t ≡ some ("", id)
    → split_last (value ++ t) ≡ some (value, id)
unfolding split_last
split-append String.[] t id h = ap split_last (nil-append t) ∙ h
split-append (String.◌∷◌ c s) t id h =
    ap split_last (cons-append c s t) ∙ unfold_split c (s ++ t) s id (split-append s t id h)

-- A cursor with an id decodes to the value and the id that it was made of, whatever the value is, if no
-- character of the id is a bar.
pub decode_cursor-encode_cursor :
    (value id : String)
    → no_bar id ≡ true
    → decode_cursor (encode_cursor value (some id)) ≡ (value, some id)
unfolding decode_cursor encode_cursor
decode_cursor-encode_cursor value id h =
    ap (cursor_parts (value ++ ("||" ++ id)))
      (split-append value ("||" ++ id) id (ap split_last (separated id) ∙ bars-no_bar id h))

given_cons : (c : Char) (s : String) {t : String} → t ≡ String.◌∷◌ c s → given (some t) ≡ some t
given_cons c s {t} e = subst (λ x. given (some x) ≡ some x) (sym e) refl

pub given-encode_cursor :
    (value id : String)
    → given (some (encode_cursor value (some id))) ≡ some (encode_cursor value (some id))
unfolding encode_cursor
given-encode_cursor String.[] id =
    given_cons bar (String.◌∷◌ bar id) (nil-append ("||" ++ id) ∙ separated id)
given-encode_cursor (String.◌∷◌ c s) id =
    given_cons c (s ++ ("||" ++ id)) (cons-append c s ("||" ++ id))
