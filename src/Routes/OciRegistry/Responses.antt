-- ===== src/Routes/OciRegistry/Responses.antt =====
-- src/routes/oci-registry.ts: the responses. The object of a JSON body is kept before it is printed.
use cloister.Prelude.{ℕ, ◌-◌, String, Option, List, [], ◌∷◌, length, or_else, if◌then◌else◌}
use cloister.Prelude.Keys.{◌==◌, nat_eq, string_eq}
use cloister.Prelude.Text.{◌&◌, decimal}
use cloister.Routes.OciRegistry.Names.{sha256_ref}

pub data Body : Type 0 where
  no_body version_object : Body
  bytes_of : List ℕ → Body
  one_error : (code message : String) → Body
  repositories : List String → Body
  tags_of : (name : String) (tags : List String) → Body

pub record Response : Type 0 where
  pub status : ℕ
  pub headers : List (String × String)
  pub body : Body

abbrev pub api_version : String × String
api_version = ("Docker-Distribution-API-Version", "registry/2.0")

abbrev json_type : String × String
json_type = ("content-type", "application/json; charset=utf-8")

abbrev pub default_manifest_media_type : String
default_manifest_media_type = "application/vnd.oci.image.manifest.v1+json"

abbrev pub json_response : Body → Response
json_response body = record { status = 200; headers = json_type ∷ api_version ∷ []; body = body }

abbrev pub oci_error : ℕ → String → String → Response
oci_error status code message = record {
  status = status;
  headers = json_type ∷ api_version ∷ [];
  body = one_error code message;
}

abbrev docker_content_digest : String → String × String
docker_content_digest hex = ("docker-content-digest", sha256_ref hex)

abbrev etag : String → String × String
etag hex = ("etag", "\"" & sha256_ref hex & "\"")

-- `media_type` is the body's field `mediaType`, where the body is a JSON object in which it is a text.
abbrev pick_manifest_media_type : (List ℕ → Option String) → List ℕ → String
pick_manifest_media_type media_type bytes =
    let found = or_else (media_type bytes) "" in
    if found == "" then default_manifest_media_type else found

abbrev full_response : String → List ℕ → String → Response
full_response content_type bytes hex = record {
  status = 200;
  headers =
      ("content-type", content_type)
      ∷ ("content-length", decimal (length bytes))
      ∷ docker_content_digest hex
      ∷ api_version
      ∷ etag hex
      ∷ [];
  body = bytes_of bytes;
}

abbrev head_response : String → String → Response
head_response content_type hex = record {
  status = 200;
  headers =
      ("content-type", content_type) ∷ docker_content_digest hex ∷ api_version ∷ etag hex ∷ [];
  body = no_body;
}

abbrev pub manifest_response : (List ℕ → Option String) → List ℕ → String → Response
manifest_response media_type bytes hex =
    full_response (pick_manifest_media_type media_type bytes) bytes hex

abbrev pub manifest_head_response : String → Response
manifest_head_response hex = head_response default_manifest_media_type hex

abbrev pub blob_response : List ℕ → String → Response
blob_response bytes hex = full_response "application/octet-stream" bytes hex

abbrev pub blob_head_response : String → Response
blob_head_response hex = head_response "application/octet-stream" hex

-- The range ends at the last byte, and at 0 for an empty session.
abbrev pub upload_accepted_response : String → String → ℕ → Response
upload_accepted_response name uuid size = record {
  status = 202;
  headers =
      ("location", "/v2/" & name & "/blobs/uploads/" & uuid)
      ∷ ("range", "0-" & decimal (size - 1))
      ∷ ("content-length", "0")
      ∷ ("docker-upload-uuid", uuid)
      ∷ api_version
      ∷ [];
  body = no_body;
}

abbrev created_response : String → String → Response
created_response location hex = record {
  status = 201;
  headers =
      ("location", location)
      ∷ docker_content_digest hex
      ∷ ("content-length", "0")
      ∷ api_version
      ∷ [];
  body = no_body;
}

abbrev pub blob_created_response : String → String → Response
blob_created_response name hex = created_response ("/v2/" & name & "/blobs/" & sha256_ref hex) hex

abbrev pub manifest_created_response : String → String → String → Response
manifest_created_response name reference hex =
    created_response ("/v2/" & name & "/manifests/" & reference) hex
