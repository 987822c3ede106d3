-- ===== src/Serve.antt =====
-- cmd/serve/main.go, the development server: the steps of its start and what its handler adds to a
-- response. mime, filepath, os and net/http are parameters.
use crossfault.Prelude.{Option, none, some, [], ◌∷◌, Bytes, NodeId-Key, Map, insert}

-- What the libraries answer: an error's text, or none.
pub record Host : Type 0 where
  -- mime.AddExtensionType
  pub add_extension_type : Bytes → Bytes → Option Bytes
  -- filepath.Abs, the error first
  pub abs : Bytes → Option Bytes × Bytes
  -- os.Stat
  pub stat : Bytes → Option Bytes
  -- http.ListenAndServe, which gives its error when serving ends
  pub listen_and_serve : Bytes → Option Bytes

pub data Step : Type 0 where
  register_type resolve_directory find_directory listen : Step

-- How `main` ends, and whether it came to listen: log.Fatal at a step, or the end of the function.
pub data Exit : Type 0 where
  fatal : (at : Step) (why : Bytes) → Exit
  finished : Exit

abbrev wasm_extension : Bytes
wasm_extension = b'.' ∷ b'w' ∷ b'a' ∷ b's' ∷ b'm' ∷ []

abbrev wasm_type : Bytes
wasm_type =
    b'a' ∷ b'p' ∷ b'p' ∷ b'l' ∷ b'i' ∷ b'c' ∷ b'a' ∷ b't' ∷ b'i' ∷ b'o' ∷ b'n' ∷ b'/' ∷ b'w' ∷ b'a'
    ∷ b's' ∷ b'm' ∷ []

unfoldable pub main : Host → (dir addr : Bytes) → Exit
main h dir addr = elim (h.add_extension_type wasm_extension wasm_type) [
  | some e ↦ fatal register_type e
  | none ↦
      let (failed, path) = h.abs dir in
      elim failed [
        | some e ↦ fatal resolve_directory e
        | none ↦ elim (h.stat path) [
          | some e ↦ fatal find_directory e
          | none ↦ elim (h.listen_and_serve addr) [ none ↦ finished | some e ↦ fatal listen e ]
        ]
      ]
]

abbrev pub content_type_options : Bytes
content_type_options =
    b'X' ∷ b'-' ∷ b'C' ∷ b'o' ∷ b'n' ∷ b't' ∷ b'e' ∷ b'n' ∷ b't' ∷ b'-' ∷ b'T' ∷ b'y' ∷ b'p' ∷ b'e'
    ∷ b'-' ∷ b'O' ∷ b'p' ∷ b't' ∷ b'i' ∷ b'o' ∷ b'n' ∷ b's' ∷ []

abbrev pub nosniff : Bytes
nosniff = b'n' ∷ b'o' ∷ b's' ∷ b'n' ∷ b'i' ∷ b'f' ∷ b'f' ∷ []

abbrev pub referrer_policy : Bytes
referrer_policy =
    b'R' ∷ b'e' ∷ b'f' ∷ b'e' ∷ b'r' ∷ b'r' ∷ b'e' ∷ b'r' ∷ b'-' ∷ b'P' ∷ b'o' ∷ b'l' ∷ b'i' ∷ b'c'
    ∷ b'y' ∷ []

abbrev pub strict_origin : Bytes
strict_origin =
    b's' ∷ b't' ∷ b'r' ∷ b'i' ∷ b'c' ∷ b't' ∷ b'-' ∷ b'o' ∷ b'r' ∷ b'i' ∷ b'g' ∷ b'i' ∷ b'n' ∷ b'-'
    ∷ b'w' ∷ b'h' ∷ b'e' ∷ b'n' ∷ b'-' ∷ b'c' ∷ b'r' ∷ b'o' ∷ b's' ∷ b's' ∷ b'-' ∷ b'o' ∷ b'r'
    ∷ b'i' ∷ b'g' ∷ b'i' ∷ b'n' ∷ []

abbrev pub cache_control : Bytes
cache_control =
    b'C' ∷ b'a' ∷ b'c' ∷ b'h' ∷ b'e' ∷ b'-' ∷ b'C' ∷ b'o' ∷ b'n' ∷ b't' ∷ b'r' ∷ b'o' ∷ b'l' ∷ []

abbrev pub no_store : Bytes
no_store = b'n' ∷ b'o' ∷ b'-' ∷ b's' ∷ b't' ∷ b'o' ∷ b'r' ∷ b'e' ∷ []

-- The headers of a response when the file server gets it.
unfoldable pub secured : Map Bytes Bytes → Map Bytes Bytes
secured header =
    insert cache_control no_store
      (insert referrer_policy strict_origin (insert content_type_options nosniff header))

-- The handler around the file server of net/http.
unfoldable pub handler :
    {Request Response : Type 0}
    → (Map Bytes Bytes → Request → Response)
    → Map Bytes Bytes
    → Request
    → Response
unfolding secured
handler file_server header r = file_server (secured header) r
