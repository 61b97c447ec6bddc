-- ===== src/Bt/Metadata/Info/Paths.antt =====
-- The path of a file: the order of its parts.
use bt_dht_crawler.Prelude.{◌≡◌, refl, sym, ap, ap₂, ◌∙◌, List, [], ◌∷◌, ◌++◌, append_assoc, Bytes}
use bt_dht_crawler.Bt.Metadata.Info.{but_last, last_part, prepend_parts, join_path}

-- The parts of a path, with a slash between them.
unfoldable pub slashed : List Bytes → Bytes
slashed [] = []
slashed (p ∷ []) = p
slashed (p ∷ q ∷ ps) = p ++ (b'/' ∷ slashed (q ∷ ps))

-- In the opposite order.
unfoldable pub backwards : List Bytes → List Bytes
backwards [] = []
backwards (p ∷ ps) = backwards ps ++ (p ∷ [])

but_last-append : (ps : List Bytes) (p : Bytes) → but_last (ps ++ (p ∷ [])) ≡ ps
but_last-append [] p = refl
but_last-append (q ∷ []) p = refl
but_last-append (q ∷ r ∷ ps) p = ap (λ w. q ∷ w) (but_last-append (r ∷ ps) p)

last_part-append : (ps : List Bytes) (p : Bytes) → last_part (ps ++ (p ∷ [])) ≡ p
last_part-append [] p = refl
last_part-append (q ∷ []) p = refl
last_part-append (q ∷ r ∷ ps) p = last_part-append (r ∷ ps) p

-- Two parts at the end may be joined first.
slashed-joined :
    (ps : List Bytes) (p q : Bytes)
    → slashed (ps ++ ((p ++ (b'/' ∷ q)) ∷ [])) ≡ slashed (ps ++ (p ∷ q ∷ []))
unfolding slashed
slashed-joined [] p q = refl
slashed-joined (r ∷ []) p q = refl
slashed-joined (r ∷ s ∷ ps) p q = ap (λ w. r ++ (b'/' ∷ w)) (slashed-joined (s ∷ ps) p q)

prepend_parts-slashed :
    (ps : List Bytes) (path : Bytes) → prepend_parts ps path ≡ slashed (backwards ps ++ (path ∷ []))
unfolding prepend_parts backwards slashed
prepend_parts-slashed [] path = refl
prepend_parts-slashed (p ∷ ps) path =
    prepend_parts-slashed ps (p ++ (b'/' ∷ path))
    ∙ slashed-joined (backwards ps) p path
    ∙ sym (ap slashed (append_assoc (backwards ps) (p ∷ []) (path ∷ [])))

-- The path of a file has its directories in the order opposite to that of the list in the torrent, then the
-- name, with slashes between them.
pub join_path-backwards :
    (dirs : List Bytes) (file : Bytes)
    → join_path (dirs ++ (file ∷ [])) ≡ slashed (backwards dirs ++ (file ∷ []))
unfolding join_path
join_path-backwards dirs file =
    ap₂ prepend_parts (but_last-append dirs file) (last_part-append dirs file)
    ∙ prepend_parts-slashed dirs file
