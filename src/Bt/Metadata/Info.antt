-- ===== src/Bt/Metadata/Info.antt =====
-- internal/bt/metadata.go: `parseMetadata`, from the bytes of the info dictionary to the files.
pub mod Paths
pub mod Files
use bt_dht_crawler.Prelude.{
  ℕ, zero, suc, ◌+◌, ◌-◌, ◌*◌, ◌^◌, ◌≤◌, ◌<◌, ◌≡◌, ◌≢◌, refl, sym, ap, ap₂, ◌∙◌, subst, Bool, true,
  false, not, ◌&&◌, ◌||◌, ◌/◌, ◌%◌, List, [], ◌∷◌, ◌++◌, append_assoc, append-nil, map, min, Bytes,
  codes, bytes_eq, bytes_eq→eq, eq→bytes_eq, bytes_eq_refl, bytes_eq-same, times, Option-cases,
  length, length-append, take, drop, get_elem?, set, replicate, length-set, length-take,
  length-drop, take-append, drop-append, All, All-append, Pairwise, Pairwise-middle, ltb, ltb→lt,
  leb, ◌==◌, if◌then◌else◌, Outcome, ok, err, panic, Error, ◌>>=◌, Ends, Ends-bind, Ends-mono,
  Ends-if, Always, Bool-cases, inl, inr, ◌⊎◌, arith, Option, none, some,
}
use bt_dht_crawler.Prelude.Int.{ℤ, pos, negsuc, IsInt64}
use bt_dht_crawler.Prelude.Int.{add_int64}
use bt_dht_crawler.Bt.Value.{Value, Items, Dict, bytes, dict, nil, cons}
use bt_dht_crawler.Bt.Decode.{decode_top_dict}
use bt_dht_crawler.Bt.Access.{get_string, get_int, get_list}

pub record FileInfo : Type 0 where
  pub path : Bytes
  pub size : ℤ

pub record TorrentMeta : Type 0 where
  pub info_hash : Bytes
  pub name : Bytes
  pub size : ℤ
  pub files : List FileInfo
  pub piece_len : ℤ
  pub raw_info : Bytes

-- The strings of a path list.
unfoldable pub path_parts : Items → List Bytes
path_parts nil = []
path_parts (cons (bytes b) xs) = b ∷ path_parts xs
path_parts (cons _ xs) = path_parts xs

-- The parts but the last, and the last.
abbrev pub but_last : List Bytes → List Bytes
but_last [] = []
but_last (p ∷ []) = []
but_last (p ∷ q ∷ ps) = p ∷ but_last (q ∷ ps)

abbrev pub last_part : List Bytes → Bytes
last_part [] = []
last_part (p ∷ []) = p
last_part (p ∷ q ∷ ps) = last_part (q ∷ ps)

-- The loop `fileInfo.Path = pathParts[i] + "/" + fileInfo.Path`.
unfoldable pub prepend_parts : List Bytes → Bytes → Bytes
prepend_parts [] path = path
prepend_parts (p ∷ ps) path = prepend_parts ps (p ++ (b'/' ∷ path))

unfoldable pub join_path : List Bytes → Bytes
unfolding prepend_parts
join_path parts = prepend_parts (but_last parts) (last_part parts)

abbrev pub path_of : Option Items → Bytes
path_of none = []
path_of (some xs) = join_path (path_parts xs)

abbrev pub size_of : Option ℤ → ℤ
size_of none = pos 0
size_of (some z) = z

-- One entry of `files`.
unfoldable pub file_info : Dict → FileInfo
unfolding get_int get_list join_path path_parts
file_info d = record {
  path = path_of (get_list d (codes "path"));
  size = size_of (get_int d (codes "length"));
}

abbrev pub grow : Option ℤ → ℤ → ℤ
grow none total = total
grow (some z) total = add_int64 total z

unfoldable pub add_file : Dict → TorrentMeta → TorrentMeta
unfolding file_info add_int64
add_file d m = record m {
  size = grow (get_int d (codes "length")) m.size;
  files = m.files ++ (file_info d ∷ []);
}

-- The loop over `files`.
unfoldable pub add_files : Items → TorrentMeta → TorrentMeta
unfolding add_file
add_files nil m = m
add_files (cons (dict d) xs) m = add_files xs (add_file d m)
add_files (cons _ xs) m = add_files xs m

abbrev pub name_or : Option Bytes → Option Bytes → Bytes
name_or (some n) o = n
name_or none (some n) = n
name_or none none = []

abbrev pub single_file : Option ℤ → TorrentMeta → TorrentMeta
single_file none m = m
single_file (some z) m = record m { size = z; files = record { path = m.name; size = z } ∷ [] }

abbrev pub with_files : Option Items → Option ℤ → TorrentMeta → TorrentMeta
with_files (some xs) length_field m = add_files xs m
with_files none length_field m = single_file length_field m

unfoldable pub meta_of : Bytes → Bytes → Dict → TorrentMeta
unfolding add_files get_string get_int get_list
meta_of info_hash text d =
    with_files (get_list d (codes "files")) (get_int d (codes "length")) (record {
      info_hash = info_hash;
      name = name_or (get_string d (codes "name")) (get_string d (codes "name.utf-8"));
      size = pos 0;
      files = [];
      piece_len = size_of (get_int d (codes "piece length"));
      raw_info = text;
    })

-- `parseMetadata`
unfoldable pub parse_metadata : Bytes → Bytes → Outcome TorrentMeta
unfolding meta_of
parse_metadata info_hash text = decode_top_dict text >>= λ d. ok (meta_of info_hash text d)
