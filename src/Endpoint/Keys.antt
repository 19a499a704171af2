-- ===== src/Endpoint/Keys.antt =====
-- Texts in front of texts: the keys of the caches tell ids and users apart.
use Prim.Native.Char.{Char, code}
use Prim.Native.String.{◌++◌}
use Prim.Native.String.append
use aureum.Prelude.{String, ◌≡◌, ◌≢◌, refl, sym, ap, ◌∙◌, Bool, true, not, ◌&&◌, ◌==◌, arith}

-- No character is a colon, as in the text of a UUID.
unfoldable pub has_no_colon : String → Bool
has_no_colon String.[] = true
has_no_colon (String.◌∷◌ c s) = not (code c == b':') && has_no_colon s

pub append-cancel : (p s t : String) → p ++ s ≡ p ++ t → s ≡ t
append-cancel String.[] s t h = sym (append.nil s) ∙ h ∙ append.nil t
append-cancel (String.◌∷◌ c p) s t h =
    append-cancel p s t (cc (append.cons c p s, append.cons c p t, h))

-- A colon in front of a text.
colon : (s : String) → ":" ++ s ≡ String.◌∷◌ ":" s
colon s = append.cons ":" "" s ∙ ap (String.◌∷◌ ":") (append.nil s)

no_colon : (c : Char) (s : String) → has_no_colon (String.◌∷◌ c s) ≡ true → code c ≢ b':'
unfolding has_no_colon
no_colon c s h e = ground (arith, h, e)

no_colons : (c : Char) (s : String) → has_no_colon (String.◌∷◌ c s) ≡ true → has_no_colon s ≡ true
unfolding has_no_colon
no_colons c s h = ground (arith, h)

pub append-split :
    (u v s t : String)
    → has_no_colon u ≡ true
    → has_no_colon v ≡ true
    → u ++ ":" ++ s ≡ v ++ ":" ++ t
    → (u ≡ v) × (s ≡ t)
append-split String.[] String.[] s t f g h =
    (refl, cc (append.nil (":" ++ s), append.nil (":" ++ t), colon s, colon t, h))
append-split String.[] (String.◌∷◌ d v) s t f g h =
    let same : String.◌∷◌ ":" s ≡ String.◌∷◌ d (v ++ ":" ++ t) =
      cc (append.nil (":" ++ s), colon s, append.cons d v (":" ++ t), h) in
    ground (arith, no_colon d v g (cc same))
append-split (String.◌∷◌ c u) String.[] s t f g h =
    let same : String.◌∷◌ c (u ++ ":" ++ s) ≡ String.◌∷◌ ":" t =
      cc (append.nil (":" ++ t), colon t, append.cons c u (":" ++ s), h) in
    ground (arith, no_colon c u f (cc same))
append-split (String.◌∷◌ c u) (String.◌∷◌ d v) s t f g h =
    let same : String.◌∷◌ c (u ++ ":" ++ s) ≡ String.◌∷◌ d (v ++ ":" ++ t) =
      cc (append.cons c u (":" ++ s), append.cons d v (":" ++ t), h) in
    let (u-v, s-t) = append-split u v s t (no_colons c u f) (no_colons d v g) (cc same) in
    (cc (same, u-v), s-t)
