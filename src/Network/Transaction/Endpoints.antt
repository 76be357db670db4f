-- ===== src/Network/Transaction/Endpoints.antt =====
-- The segments of an endpoint, on a split as boost documents it.
use Prim.Native.Char.{Char, code}
use Prim.Native.String.{◌++◌}
use text.Mathlib.TextLemmas.{append-nil, cons-append, nil-append}
use sage_store.Prelude.{
  String, Bool, false, not, ◌&&◌, ◌||◌, leb, ◌≡◌, ◌∙◌, refl, ap, sym, List, [], ◌∷◌, select,
  is_blank, arith,
}
use sage_store.Network.Transaction.{parse_endpoint}

abbrev pub is_slash : Char → Bool
is_slash c = leb (code c) b'/' && leb b'/' (code c)

unfoldable pub has_slash : String → Bool
has_slash String.[] = false
has_slash (String.◌∷◌ c s) = is_slash c || has_slash s

unfoldable pub begins_with_slash : String → Bool
begins_with_slash String.[] = false
begins_with_slash (String.◌∷◌ c s) = is_slash c

-- A split at the slashes, where neighbouring slashes count as one.
pub record IsSplit (split : String → List String) : Type 0 where
  pub no_slash_lem : (t : String) → has_slash t ≡ false → split t ≡ t ∷ []
  pub one_slash_lem :
      (s t : String)
      → has_slash s ≡ false
      → begins_with_slash t ≡ false
      → split (s ++ "/" ++ t) ≡ s ∷ split t
  pub slashes_lem :
      (s t : String) → has_slash s ≡ false → split (s ++ "//" ++ t) ≡ split (s ++ "/" ++ t)

-- Texts that can stand between slashes.
unfoldable pub AreSegments : List String → Type 0
AreSegments [] = Unit {0}
AreSegments (s ∷ segments) = (is_blank s ≡ false) × (has_slash s ≡ false) × AreSegments segments

-- `/segment` for each segment
unfoldable pub path_of : List String → String
path_of [] = ""
path_of (s ∷ segments) = "/" ++ (s ++ path_of segments)

neither : (x y : Bool) → (x || y) ≡ false → x ≡ false
neither x y h = ground arith

begins_with_segment :
    (s t : String) → is_blank s ≡ false → has_slash s ≡ false → begins_with_slash (s ++ t) ≡ false
unfolding has_slash begins_with_slash
begins_with_segment String.[] t h h' = ground arith
begins_with_segment (String.◌∷◌ c s) t h h' =
    rw (cons-append c s t) (neither (is_slash c) (has_slash s) h')

module _ (split : String → List String) (l : IsSplit split) where
  split-path_of :
      (s : String) (segments : List String)
      → AreSegments (s ∷ segments)
      → split (s ++ path_of segments) ≡ s ∷ segments
  unfolding AreSegments path_of
  split-path_of s [] h = rw append-nil (l.no_slash_lem s h.1)
  split-path_of s (t ∷ segments) h =
      l.one_slash_lem s (t ++ path_of segments) h.1
        (begins_with_segment t (path_of segments) h.2.0 h.2.1)
      ∙ ap (λ rest. s ∷ rest) (split-path_of t segments h.2)

  all_selected :
      (segments : List String)
      → AreSegments segments
      → select (λ s. not (is_blank s)) segments ≡ segments
  unfolding AreSegments select
  all_selected [] h = refl
  all_selected (s ∷ segments) h = rw h.0 (rw (all_selected segments h.2) refl)

  -- Reading the path that is made of some segments, each filled and without a slash, gives the segments
  -- back, on a split as boost documents it.
  pub parse_endpoint-path_of :
      (s : String) (segments : List String)
      → AreSegments (s ∷ segments)
      → parse_endpoint split (path_of (s ∷ segments)) ≡ s ∷ segments
  unfolding parse_endpoint path_of
  parse_endpoint-path_of s segments h =
      ap (λ pieces. select (λ s. not (is_blank s)) pieces)
        (ap split (sym (nil-append _))
          ∙ l.one_slash_lem "" (s ++ path_of segments) (unfold has_slash in refl) (
              begins_with_segment s (path_of segments) (unfold AreSegments in h.0)
                (unfold AreSegments in h.1))
          ∙ ap (λ rest. "" ∷ rest) (split-path_of s segments h))
      ∙ (unfold select in all_selected (s ∷ segments) h)
