-- ===== src/ApiDocs.antt =====
-- internal/platform/apidocs: docs.go serves the documentation page, whose script
-- assets/initializer.js sets up Swagger UI.
pub mod Serving
use Prim.Native.String.{String}
use al_ur_messenger.Prelude.{ℕ, Bool, true, false, Option, none, some, List, [], ◌∷◌}
use al_ur_messenger.Text.{Text}

pub data Method : Type 0 where
  get head post put patch delete options : Method

-- The paths of the switch of Handler, and any other path.
pub data Route : Type 0 where
  docs docs_slash openapi_json swagger_bundle_js initializer_js swagger_css : Route
  other : Route

-- The embedded files, each with what embed.FS.ReadFile gives, and openapi.Document.
pub record Assets : Type 0 where
  pub index_html : Option Text
  pub swagger_bundle : Option Text
  pub initializer : Option Text
  pub stylesheet : Option Text
  pub document : Text

pub data MediaType : Type 0 where
  html json javascript css : MediaType

-- The headers that depend on the request are Allow and Content-Type; `protected` tells whether
-- Content-Security-Policy and Referrer-Policy are set; `length` is Content-Length.
pub data Response : Type 0 where
  method_not_allowed : Response
  not_found : Response
  unavailable : Response
  served : MediaType → Text → Option Text → Response

abbrev pub status : Response → ℕ
status method_not_allowed = 405
status not_found = 404
status unavailable = 500
status (served t content body) = 200

abbrev pub is_read : Method → Bool
is_read Method.get = true
is_read Method.head = true
is_read _ = false

-- The content and the type of a path, `none` for a path that is not listed; the inner `none` is a file
-- that cannot be read.
abbrev pub asset : Assets → Route → Option (MediaType × Option Text)
asset a docs = some (html, a.index_html)
asset a docs_slash = some (html, a.index_html)
asset a openapi_json = some (json, some a.document)
asset a swagger_bundle_js = some (javascript, a.swagger_bundle)
asset a initializer_js = some (javascript, a.initializer)
asset a swagger_css = some (css, a.stylesheet)
asset a other = none

-- The body that is written: none for HEAD, while Content-Length is that of the content.
abbrev pub body_for : Method → Text → Option Text
body_for Method.head content = none
body_for _ content = some content

abbrev pub respond : Method → Option (MediaType × Option Text) → Response
respond m none = not_found
respond m (some (t, none)) = unavailable
respond m (some (t, some content)) = served t content (body_for m content)

-- Handler
unfoldable pub handle : Assets → Method → Route → Response
handle a m p = elim (is_read m) [ true ↦ respond m (asset a p) | false ↦ method_not_allowed ]

-- A number of JavaScript that is whole.
pub data ℤ : Type 0 where
  pos negsuc : ℕ → ℤ

-- SwaggerUIBundle.presets.apis
pub data Preset : Type 0 where
  apis : Preset

-- The options that initializer.js passes to SwaggerUIBundle.
pub record SwaggerOptions : Type 0 where
  pub url : Route
  pub dom_id : String
  pub presets : List Preset
  pub layout : String
  pub deep_linking : Bool
  pub doc_expansion : String
  pub default_models_expand_depth : ℤ
  pub persist_authorization : Bool
  pub with_credentials : Bool
  pub query_config_enabled : Bool
  pub validator_url : Option String
  pub supported_submit_methods : List Method
  pub display_request_duration : Bool

abbrev pub initializer_options : SwaggerOptions
initializer_options = record {
  url = openapi_json;
  dom_id = "#swagger-ui";
  presets = apis ∷ [];
  layout = "BaseLayout";
  deep_linking = true;
  doc_expansion = "list";
  default_models_expand_depth = negsuc 0;
  persist_authorization = false;
  with_credentials = false;
  query_config_enabled = false;
  validator_url = none;
  supported_submit_methods = Method.get ∷ Method.head ∷ Method.patch ∷ [];
  display_request_duration = true;
}

-- What index.html loads: the stylesheet, the bundle and the initializer, which then loads `url`.
abbrev pub loaded : List Route
loaded = swagger_css ∷ swagger_bundle_js ∷ initializer_js ∷ initializer_options.url ∷ []
