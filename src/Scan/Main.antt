-- ===== src/Scan/Main.antt =====
-- loadFromCache, readLines, buildRequestJson and main of scan_ip_net/main.go. What ioutil.ReadFile,
-- ReadLine, http.Post and encoding/json give are arguments.
pub mod Restart
use go_util.Prelude.{ℕ, Option, none, some, List, [], ◌∷◌, ◌++◌, map}
use go_util.Prelude.Dict.{bytes_key, assign}
use go_util.Scan.Cache.{GeoResponse, Cache, Saved}
use go_util.Scan.Run.{Ran, run}

-- What a call of ReadLine gives. An error that is not io.EOF brings no bytes.
pub data LineRead : Type 0 where
  line : List ℕ → LineRead
  end_of_file : LineRead
  line_error : LineRead

-- `none` while the loop still reads. An error adds an empty line, and the loop goes on.
unfoldable pub read_loop : List LineRead → List (List ℕ) → Option (List (List ℕ))
read_loop [] lines = none
read_loop (line bytes ∷ rest) lines = read_loop rest (lines ++ bytes ∷ [])
read_loop (end_of_file ∷ rest) lines = some lines
read_loop (line_error ∷ rest) lines = read_loop rest (lines ++ [] ∷ [])

-- The argument is `none` where Open fails.
unfoldable pub read_lines : Option (List LineRead) → Option (List (List ℕ))
read_lines none = some []
read_lines (some reads) = read_loop reads []

-- What a post brings: its own error, one of ReadAll, or a body.
pub data Post (Text : Type 0) : Type 0 where
  not_posted : Post Text
  not_read : Post Text
  content : Text → Post Text

-- The entries that a text's object has, and the array of responses that it is, `none` for nil.
pub record Codec (Text : Type 0) : Type 0 where
  pub marshal : Cache → Text
  pub entries : Text → Cache
  pub responses : Text → Option (List GeoResponse)

module _ {Text : Type 0} (codec : Codec Text) where
  unfoldable pub build_request_json : Post Text → Option (List GeoResponse)
  build_request_json not_posted = none
  build_request_json not_read = none
  build_request_json (content text) = codec.responses text

  -- json.Unmarshal into a map keeps the entries that it has under other keys.
  unfoldable pub add_all : Cache → Cache → Cache
  add_all [] conf = conf
  add_all (e ∷ rest) conf = assign e.0 e.1 (add_all rest conf)

  -- The file is `none` where ReadFile fails.
  unfoldable pub load_from_cache : Option Text → Cache → Cache
  load_from_cache none conf = conf
  load_from_cache (some text) conf = add_all (codec.entries text) conf

  -- The cache when run starts: init and main both load it.
  unfoldable pub first_cache : Option Text → Cache
  first_cache file = load_from_cache file (load_from_cache file [])

  unfoldable pub started :
      (Option Text → Text → Option Text)
      → ℕ
      → List (Post Text)
      → Option Text
      → Option (List (List ℕ))
      → Option (Ran Text)
  started write_file size posts file none = none
  started write_file size posts file (some lines) = some (
      run codec.marshal write_file size lines (map build_request_json posts)
        (record { cache = first_cache file; cache_file = file }))

  -- `none` while readLines still reads.
  unfoldable pub main :
      (Option Text → Text → Option Text)
      → ℕ
      → Option (List LineRead)
      → List (Post Text)
      → Option Text
      → Option (Ran Text)
  main write_file size login_file posts file =
      started write_file size posts file (read_lines login_file)
