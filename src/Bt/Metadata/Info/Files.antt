-- ===== src/Bt/Metadata/Info/Files.antt =====
-- The metadata of a torrent of several files, from its encoding to the list of files.
use bt_dht_crawler.Prelude.{
  ◌≡◌, refl, sym, ap, ◌∙◌, List, [], ◌∷◌, ◌++◌, append_assoc, append-nil, map, Bytes, codes, ok,
}
use bt_dht_crawler.Prelude.Int.{ℤ, pos}
use bt_dht_crawler.Prelude.Int.{add_int64}
use bt_dht_crawler.Bt.Value.{
  Value, Items, Dict, bytes, int64, list, dict, nil, cons, from_list, lookup,
}
use bt_dht_crawler.Bt.Encode.{encode, bytes_less}
use bt_dht_crawler.Bt.Decode.{decode, decode_reader, decode_top_dict}
use bt_dht_crawler.Bt.Access.{get_string, get_int, get_list}
use bt_dht_crawler.Bt.Received.{received, received_items, IsEncodable}
use bt_dht_crawler.Bt.RoundTrip.{decode_reader-encode}
use bt_dht_crawler.Bt.RoundTrip.Lookup.{received_map}
use bt_dht_crawler.Bt.Metadata.Info.{
  FileInfo, TorrentMeta, path_parts, join_path, file_info, add_file, add_files, meta_of,
  parse_metadata,
}
use bt_dht_crawler.Bt.Metadata.Info.Paths.{slashed, backwards, join_path-backwards}

-- A file as its author describes it: the directories from the outermost on, the name and the size.
pub record Described : Type 0 where
  pub dirs : List Bytes
  pub file : Bytes
  pub size : ℤ

-- The info dictionary of the author.
pub record Torrent : Type 0 where
  pub name : Bytes
  pub piece_len : ℤ
  pub hashes : Bytes
  pub contents : List Described

unfoldable pub parts_items : List Bytes → Items
parts_items [] = nil
parts_items (p ∷ ps) = cons (bytes p) (parts_items ps)

abbrev pub file_fields : Described → List (Bytes × Value)
file_fields f =
    (codes "length", int64 f.size)
    ∷ (codes "path", list (parts_items (f.dirs ++ (f.file ∷ []))))
    ∷ []

abbrev pub file_dict : Described → Dict
file_dict f = from_list (file_fields f)

unfoldable pub file_items : List Described → Items
file_items [] = nil
file_items (f ∷ fs) = cons (dict (file_dict f)) (file_items fs)

abbrev pub info_fields : Torrent → List (Bytes × Value)
info_fields t =
    (codes "files", list (file_items t.contents))
    ∷ (codes "name", bytes t.name)
    ∷ (codes "piece length", int64 t.piece_len)
    ∷ (codes "pieces", bytes t.hashes)
    ∷ []

abbrev pub info_dict : Torrent → Dict
info_dict t = from_list (info_fields t)

-- What the crawler lists: the directories of each path the other way round, and the sum of the sizes as an
-- `int64` that wraps around.
abbrev pub listed_file : Described → FileInfo
listed_file f = record { path = slashed (backwards f.dirs ++ (f.file ∷ [])); size = f.size }

unfoldable pub total_size : List Described → ℤ → ℤ
total_size [] z = z
total_size (f ∷ fs) z = total_size fs (add_int64 z f.size)

abbrev pub listed : Bytes → Bytes → Torrent → TorrentMeta
listed info_hash text t = record {
  info_hash = info_hash;
  name = t.name;
  size = total_size t.contents (pos 0);
  files = map listed_file t.contents;
  piece_len = t.piece_len;
  raw_info = text;
}

received_items-parts_items : (ps : List Bytes) → received_items (parts_items ps) ≡ parts_items ps
unfolding received parts_items
received_items-parts_items [] = refl
received_items-parts_items (p ∷ ps) = ap (λ w. cons (bytes p) w) (received_items-parts_items ps)

path_parts-parts_items : (ps : List Bytes) → path_parts (parts_items ps) ≡ ps
unfolding path_parts parts_items
path_parts-parts_items [] = refl
path_parts-parts_items (p ∷ ps) = ap (λ w. p ∷ w) (path_parts-parts_items ps)

-- One file, with the items of its path as they arrive.
file_info-listed :
    (f : Described) (m : TorrentMeta)
    → add_file (received_map (file_dict f)) m
      ≡ record m { size = add_int64 m.size f.size; files = m.files ++ (listed_file f ∷ []) }
unfolding add_file file_info received from_list lookup bytes_less get_int get_list
file_info-listed f m =
    let parts : List Bytes = f.dirs ++ (f.file ∷ []) in
    let same : join_path (path_parts (received_items (parts_items parts)))
        ≡ slashed (backwards f.dirs ++ (f.file ∷ [])) =
      ap (λ w. join_path (path_parts w)) (received_items-parts_items parts)
      ∙ ap join_path (path_parts-parts_items parts)
      ∙ join_path-backwards f.dirs f.file in
    rw same refl

add_files-listed :
    (fs : List Described) (m : TorrentMeta)
    → add_files (received_items (file_items fs)) m
      ≡ record m { size = total_size fs m.size; files = m.files ++ map listed_file fs }
unfolding add_files received file_items total_size
add_files-listed [] m = ap (λ w. record m { files = w }) (sym (append-nil m.files))
add_files-listed (f ∷ fs) m =
    ap (add_files (received_items (file_items fs))) (file_info-listed f m)
    ∙ add_files-listed fs
        (record m { size = add_int64 m.size f.size; files = m.files ++ (listed_file f ∷ []) })
    ∙ ap (λ w. record m { size = total_size fs (add_int64 m.size f.size); files = w })
        (append_assoc m.files (listed_file f ∷ []) (map listed_file fs))

meta_of-listed :
    (info_hash text : Bytes) (t : Torrent)
    → meta_of info_hash text (received_map (info_dict t)) ≡ listed info_hash text t
unfolding meta_of received from_list lookup bytes_less get_int get_list get_string
meta_of-listed info_hash text t = add_files-listed t.contents (record {
  info_hash = info_hash;
  name = t.name;
  size = pos 0;
  files = [];
  piece_len = t.piece_len;
  raw_info = text;
})

-- An info dictionary of several files that can be encoded is encoded, and `parseMetadata` of the text finds the
-- name, the piece length and every file in order, with its size and its path, whose directories are the other
-- way round; the total is the sum of the sizes, as an `int64` that wraps around.
pub parse_metadata-encode :
    (info_hash : Bytes) (t : Torrent)
    → IsEncodable (dict (info_dict t))
    → (text : Bytes) × (encode (dict (info_dict t)) ≡ ok text)
      × (parse_metadata info_hash text ≡ ok (listed info_hash text t))
unfolding parse_metadata
parse_metadata-encode info_hash t h =
    let d : Dict = info_dict t in
    let (text, sent, read) = decode_reader-encode (dict d) [] h in
    let alone : decode_reader text ≡ ok (received (dict d), []) = rw (append-nil text) at read in
    let top : decode_top_dict text ≡ ok (received_map d) =
      unfold decode_top_dict decode in rw alone (unfold received in refl) in
    (text, sent, rw top (ap ok (meta_of-listed info_hash text t)))
