-- ===== src/Routes.antt =====
-- crates/studio-server/src/error.rs: the errors of the routes.
use cobrust_studio.Base.{ℕ, Text, String, codes, [], ◌∷◌, ◌++◌, decimal, if◌then◌else◌}
use cobrust_studio.Host.{FilePath}
use cobrust_studio.Store.{
  StoreError, io, frontmatter, ledger_parse, sqlite, store_not_found, already_exists,
  missing_frontmatter, watcher, invalid_input, is_not_found,
}

-- `RouteError`, each with its message and code
pub data RouteError : Type 0 where
  not_found : Text → String → RouteError
  bad_request : Text → String → RouteError
  conflict : Text → String → RouteError
  service_unavailable : Text → String → RouteError
  internal : Text → RouteError

pub record Envelope : Type 0 where
  pub status : ℕ
  pub error : Text
  pub code : String

-- `RouteError::into_response`
unfoldable pub into_response : RouteError → Envelope
into_response (not_found m c) = record { status = 404; error = m; code = c }
into_response (bad_request m c) = record { status = 400; error = m; code = c }
into_response (conflict m c) = record { status = 409; error = m; code = c }
into_response (service_unavailable m c) = record { status = 503; error = m; code = c }
into_response (internal m) = record {
  status = 500;
  error = codes "internal server error";
  code = "internal_error";
}

-- `Path::display`, of a path from the root
unfoldable pub display : FilePath → Text
display [] = []
display (p ∷ ps) = b'/' ∷ p ++ display ps

-- `StoreError::to_string`
unfoldable pub store_text : StoreError → Text
unfolding display
store_text (io p m) = codes "I/O error at " ++ display p ++ codes ": " ++ m
store_text (frontmatter p m) = codes "frontmatter parse error in " ++ display p ++ codes ": " ++ m
store_text (ledger_parse p n m) =
    codes "ledger entry parse error at line "
    ++ decimal n
    ++ codes " in "
    ++ display p
    ++ codes ": "
    ++ m
store_text (sqlite m) = codes "sqlite error: " ++ m
store_text (store_not_found m) = codes "not found: " ++ m
store_text (already_exists m) = codes "already exists: " ++ m
store_text (missing_frontmatter p) = codes "missing frontmatter fence in " ++ display p
store_text (watcher m) = codes "watcher init error: " ++ m
store_text (invalid_input m) = codes "invalid input: " ++ m

-- the match of `RouteError::from`, behind its test for `NotFound`
of_other : StoreError → RouteError
of_other (invalid_input m) = bad_request m "invalid_input"
of_other (already_exists m) = conflict m "already_exists"
of_other (missing_frontmatter p) =
    bad_request (store_text (missing_frontmatter p)) "malformed_frontmatter"
of_other (frontmatter p m) = bad_request (store_text (frontmatter p m)) "malformed_frontmatter"
of_other (io p m) = internal (store_text (io p m))
of_other (ledger_parse p n m) = internal (store_text (ledger_parse p n m))
of_other (sqlite m) = internal (store_text (sqlite m))
of_other (watcher m) = internal (store_text (watcher m))
of_other (store_not_found m) = internal (store_text (store_not_found m))

-- `RouteError::from` of a `StoreError`
unfoldable pub of_store : StoreError → RouteError
unfolding of_other
of_store e = if is_not_found e then not_found (store_text e) "not_found" else of_other e
