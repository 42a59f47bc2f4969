-- ===== src/Tls.antt =====
-- internal/config/tls_config.go
use gitstafette.Common.{
  ◌≡◌, ◌≢◌, ◌↔◌, String, Bool, true, false, not, ◌&&◌, Option, none, some, ◌==◌, eq_iff, arith,
  ◌<>◌, if◌then◌else◌,
}

-- The fields that are set. A certificate is kept by the files that it was loaded from, and a pool
-- of authorities by the file that was added to it.
pub record TlsConfig : Type 0 where
  pub certificates : Option (String × String)
  pub has_root_cas : Bool
  pub has_client_cas : Bool
  pub require_client_cert : Bool
  pub server_name : String

abbrev pub empty_tls_config : TlsConfig
empty_tls_config = record {
  certificates = none;
  has_root_cas = false;
  has_client_cas = false;
  require_client_cert = false;
  server_name = "";
}

-- What the files hold: whether a pair loads, what reading the authority file gives, and whether
-- its text has a certificate; and whether the system's authorities can be loaded.
pub record Files : Type 0 where
  pub load_x509_key_pair : String → String → Option String
  pub read_file : String → Option String
  pub append_certs_from_pem : String → Bool
  pub loads_system_pool : Bool

-- The configuration, which may be nil, and the error; or a panic.
abbrev pub Configured : Type 0
Configured = Option (Option TlsConfig × Option String)

abbrev pub is_set : String → Bool
is_set location = not (location == "")

abbrev pub with_authority : Bool → TlsConfig → TlsConfig
with_authority true config = record config {
  has_client_cas = true;
  require_client_cert = true;
  server_name = "gitstafette-server";
}
with_authority false config = record config { has_root_cas = true }

-- The authority file; `err` is the error of the certificate, which is returned in the end. An error
-- of the system's authorities is only logged, and a certificate is then added to a nil pool, a panic.
unfoldable pub add_authority : Files → String → Bool → TlsConfig → Option String → Configured
add_authority files ca_file is_server config err =
    if is_set ca_file
    then elim (files.read_file ca_file) [
      | some e ↦ some (none, some e)
      | none ↦
          if not (files.append_certs_from_pem ca_file)
          then some (none, some ("failed to parse root certificate: " <> ca_file))
          else (if files.loads_system_pool
              then some (some (with_authority is_server config), err)
              else none)
    ]
    else some (some config, err)

-- The errors are texts: `none` is nil.
unfoldable pub new_tls_config : Files → String → String → String → Bool → Configured
unfolding add_authority
new_tls_config files ca_file certificate_file certificate_key_file is_server =
    if not (is_set certificate_file) && not (is_set certificate_key_file) && not (is_set ca_file)
    then some (none, none)
    else (if is_set certificate_file && is_set certificate_key_file
        then add_authority files ca_file is_server
            (record empty_tls_config {
              certificates = some (certificate_file, certificate_key_file);
            })
            (files.load_x509_key_pair certificate_file certificate_key_file)
        else add_authority files ca_file is_server empty_tls_config none)

-- A server's configuration, made without an error, demands and verifies client certificates
-- exactly if an authority file is named, has the authorities for it exactly then, and has no root
-- authorities of its own.
pub new_tls_config-server :
    (files : Files) (ca_file certificate_file key_file : String) (config : TlsConfig)
    → new_tls_config files ca_file certificate_file key_file true ≡ some (some config, none)
    → ((config.require_client_cert ≡ true) ↔ (ca_file ≢ ""))
      × (config.has_client_cas ≡ config.require_client_cert)
      × (config.has_root_cas ≡ false)
unfolding new_tls_config
new_tls_config-server files ca_file cert key config h =
    (ground (arith, eq_iff ca_file ""), ground arith, ground arith)
