-- ===== src/Supervision/Loading.antt =====
-- `FileRegistry.Load` of internal/supervision/registry_store.go behind the read. The file and the
-- decoder are parameters: what a read returns, whether the permissions are private, and what is
-- decoded.
use dovik.Prelude.{String, Bool, not, Option, none, some, is_abs, if◌then◌else◌}
use dovik.Supervision.Registry.{Registry, new_registry}
use dovik.Supervision.Document.{
  RegistryDocument, DocumentError, Result, ok, err, document_to_registry,
}

-- os.ReadFile
pub data Reading (Content : Type 0) : Type 0 where
  missing unreadable : Reading Content
  content : Content → Reading Content

-- What the decoder finds when it is asked for a second value.
pub data Trailing : Type 0 where
  at_end another_value broken : Trailing

pub data StoreError : Type 0 where
  relative_path not_read not_private not_decoded trailing_value : StoreError
  invalid_document : DocumentError → StoreError

pub data Loaded : Type 0 where
  loads : Registry → Loaded
  fails : StoreError → Loaded

-- The store is not nil.
unfoldable pub validate_path : String → Option StoreError
validate_path path = if not (is_abs path) then some relative_path else none

unfoldable pub require_json_end : Trailing → Option StoreError
require_json_end at_end = none
require_json_end another_value = some trailing_value
require_json_end broken = some not_decoded

abbrev pub from_document : Result Registry → Loaded
from_document (ok registry) = loads registry
from_document (err e) = fails (invalid_document e)

unfoldable pub load :
    {Content : Type 0}
    → (Content → Option (RegistryDocument × Trailing))
    → String
    → Reading Content
    → Bool
    → Loaded
unfolding validate_path require_json_end document_to_registry
load decode path reading is_private = elim (validate_path path) [
  | some e ↦ fails e
  | none ↦ elim reading [
    | missing ↦ loads new_registry
    | unreadable ↦ fails not_read
    | content c ↦ if not is_private then fails not_private else elim (decode c) [
      | none ↦ fails not_decoded
      | some (document, trailing) ↦ elim (require_json_end trailing) [
        | some e ↦ fails e
        | none ↦ from_document (document_to_registry document)
      ]
    ]
  ]
]
