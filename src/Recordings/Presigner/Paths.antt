-- ===== src/Recordings/Presigner/Paths.antt =====
-- The paths of presigned URLs.
use ar_app.Base.{◌≡◌, ◌≢◌, ◌∙◌, refl, ap, true, List, [], ◌∷◌, map, String, All}
use ar_app.Base.Texts.{split, join, lacks, split-join, join-split, split_some}
use ar_app.Recordings.Presigner.{Codecs, encode_path}

-- What a server makes of a path: each segment is unescaped.
unfoldable pub decode_path : (String → String) → String → String
decode_path unescape p = join "/" (map unescape (split "/" p))

module _ (C : Codecs) (escaped : (s : String) → lacks "/" (C.path_escape s) ≡ true) where
  map-lacks : (texts : List String) → All (λ x. lacks "/" x ≡ true) (map C.path_escape texts)
  map-lacks [] = tt
  map-lacks (s ∷ rest) = (escaped s, map-lacks rest)

  escaped_segments :
      (texts : List String)
      → texts ≢ []
      → split "/" (join "/" (map C.path_escape texts)) ≡ map C.path_escape texts
  escaped_segments [] ne = absurd (ne refl)
  escaped_segments (s ∷ rest) ne =
      split-join "/" (C.path_escape s) (map C.path_escape rest) (map-lacks (s ∷ rest))

  module _ (unescape : String → String) (undo : (s : String) → unescape (C.path_escape s) ≡ s) where
    map-undo : (texts : List String) → map unescape (map C.path_escape texts) ≡ texts
    map-undo [] = refl
    map-undo (s ∷ rest) = cc (undo s, map-undo rest)

    -- When PathEscape leaves no slash and can be undone, a server that unescapes each segment of the path
    -- reads back the object key, whatever slashes and other characters are in it.
    pub decode_path-encode_path : (key : String) → decode_path unescape (encode_path C key) ≡ key
    unfolding decode_path encode_path
    decode_path-encode_path key =
        ap (λ texts. join "/" (map unescape texts))
          (escaped_segments (split "/" key) (split_some "/" key))
        ∙ ap (join "/") (map-undo (split "/" key))
        ∙ join-split "/" key
