-- ===== src/Cluster/Entry/Secret.antt =====
-- Which secrets `NewClusterScope` of pkg/scope/cluster.go takes.
use cluster_api_provider_nvi.Common.{
  String, true, false, Option, none, some, ◌≡◌, ◌≢◌, ◌↔◌, refl, sym, ap, ◌∙◌, inl, inr, arith,
  is_empty, is_empty_iff, Bool-cases,
}
use cluster_api_provider_nvi.Common.Dict.{Dict, lookup}
use cluster_api_provider_nvi.Common.Text.{strip_prefix}
use cluster_api_provider_nvi.Common.Exec.{ok}
use cluster_api_provider_nvi.Api.Cluster.{NcxInfraCluster}
use cluster_api_provider_nvi.Kube.{Fetched, found}
use cluster_api_provider_nvi.Cluster.Entry.{
  Credentials, Access, provided, authenticated, secret_key, read_credentials, new_cluster_scope,
}

-- Three entries, the endpoint with the https:// scheme.
pub record IsSecretOf (creds : Credentials) (secret : Dict) : Type 0 where
  pub endpoint : lookup "endpoint" secret ≡ some creds.endpoint
  pub org_name : lookup "orgName" secret ≡ some creds.org_name
  pub token : lookup "token" secret ≡ some creds.token
  pub scheme : strip_prefix "https://" creds.endpoint ≢ none

read_credentials-IsSecretOf :
    (name : String) (secret : Dict) (creds : Credentials)
    → read_credentials name secret ≡ ok creds
    → IsSecretOf creds secret
unfolding read_credentials
read_credentials-IsSecretOf name secret creds e = record {
  endpoint = ground arith;
  org_name = ground arith;
  token = ground arith;
  scheme = ground arith;
}

IsSecretOf-read_credentials :
    (name : String) (secret : Dict) (creds : Credentials)
    → IsSecretOf creds secret
    → read_credentials name secret ≡ ok creds
unfolding read_credentials
IsSecretOf-read_credentials name secret creds h =
    ground (arith, h.endpoint, h.org_name, h.token, h.scheme)

-- The secret is read under the name of the spec, in the namespace of the spec or else in the cluster's.
pub record IsKeyOf (c : NcxInfraCluster) (key : String × String) : Type 0 where
  pub name : key.0 ≡ c.spec.authentication.secret_name
  pub given :
      c.spec.authentication.secret_namespace ≢ "" → key.1 ≡ c.spec.authentication.secret_namespace
  pub fallback : c.spec.authentication.secret_namespace ≡ "" → key.1 ≡ c.meta.namespace

secret_key-IsKeyOf : (c : NcxInfraCluster) → IsKeyOf c (secret_key c)
unfolding secret_key
secret_key-IsKeyOf c = record {
  name = refl;
  given = λ h. ground (arith, h, is_empty_iff c.spec.authentication.secret_namespace);
  fallback = λ h. ground (arith, h, is_empty_iff c.spec.authentication.secret_namespace);
}

true-false : true ≢ false
true-false h = ground arith

-- No other key is one.
IsKeyOf-secret_key :
    (c : NcxInfraCluster) (key : String × String) → IsKeyOf c key → key ≡ secret_key c
unfolding secret_key
IsKeyOf-secret_key c (n, ns) h =
    elim (Bool-cases (is_empty c.spec.authentication.secret_namespace)) [
      | inl e ↦
          ground
            (arith, h.name, h.fallback ((is_empty_iff c.spec.authentication.secret_namespace).0 e))
      | inr e ↦ ground (
        arith,
        h.name,
        h.given
            (λ z. true-false (sym ((is_empty_iff c.spec.authentication.secret_namespace).1 z) ∙ e)),
      )
    ]

-- Where a scope comes from: the client that is given, or else the credentials of a secret.
pub data IsScopeOf (c : NcxInfraCluster) (client : Option String)
    (secrets : String × String → Fetched Dict) : Access → Type 0 where
  of_client : {org : String} → client ≡ some org → IsScopeOf c client secrets (provided org)
  of_secret :
      {creds : Credentials} (key : String × String) (secret : Dict)
      → client ≡ none
      → IsKeyOf c key
      → secrets key ≡ found secret
      → IsSecretOf creds secret
      → IsScopeOf c client secrets (authenticated creds)

new_cluster_scope-secret :
    (c : NcxInfraCluster) (secrets : String × String → Fetched Dict) (creds : Credentials)
    → new_cluster_scope c none secrets ≡ ok (authenticated creds)
    → (secret : Dict) × ((secrets (secret_key c) ≡ found secret)
        × (read_credentials (secret_key c).0 secret ≡ ok creds))
unfolding new_cluster_scope
new_cluster_scope-secret c secrets creds e = ground arith

new_cluster_scope-provided :
    (c : NcxInfraCluster) (secrets : String × String → Fetched Dict) (org : String)
    → new_cluster_scope c none secrets ≢ ok (provided org)
unfolding new_cluster_scope
new_cluster_scope-provided c secrets org e = ground arith

new_cluster_scope-IsScopeOf :
    (c : NcxInfraCluster) (client : Option String) (secrets : String × String → Fetched Dict)
    (a : Access)
    → new_cluster_scope c client secrets ≡ ok a
    → IsScopeOf c client secrets a
unfolding new_cluster_scope
new_cluster_scope-IsScopeOf c (some o) secrets (provided org) e = of_client (ground arith)
new_cluster_scope-IsScopeOf c (some o) secrets (authenticated creds) e = absurd (ground arith)
new_cluster_scope-IsScopeOf c none secrets (provided org) e =
    absurd (new_cluster_scope-provided c secrets org e)
new_cluster_scope-IsScopeOf c none secrets (authenticated creds) e =
    let (secret, (there, read)) = new_cluster_scope-secret c secrets creds e in
    of_secret (secret_key c) secret refl (secret_key-IsKeyOf c) there
      (read_credentials-IsSecretOf (secret_key c).0 secret creds read)

new_cluster_scope-built :
    (c : NcxInfraCluster) (secrets : String × String → Fetched Dict) (creds : Credentials)
    (secret : Dict)
    → secrets (secret_key c) ≡ found secret
    → read_credentials (secret_key c).0 secret ≡ ok creds
    → new_cluster_scope c none secrets ≡ ok (authenticated creds)
unfolding new_cluster_scope
new_cluster_scope-built c secrets creds secret there read = ground (arith, there, read)

IsScopeOf-new_cluster_scope :
    (c : NcxInfraCluster) (client : Option String) (secrets : String × String → Fetched Dict)
    (a : Access)
    → IsScopeOf c client secrets a
    → new_cluster_scope c client secrets ≡ ok a
unfolding new_cluster_scope
IsScopeOf-new_cluster_scope c client secrets a (of_client e) = rw e refl
IsScopeOf-new_cluster_scope c client secrets a (of_secret {creds} key secret e k there h) =
    ap (λ o. new_cluster_scope c o secrets) e
    ∙ new_cluster_scope-built c secrets creds secret
        (ap secrets (sym (IsKeyOf-secret_key c key k)) ∙ there)
        (IsSecretOf-read_credentials (secret_key c).0 secret creds h)

-- A scope is built exactly in two ways. If a client is given, it is that one with its organization. If
-- none is, a secret is there under the name of the spec, in the namespace of the spec or, where that is
-- empty, in the cluster's, and it holds the credentials of the scope with an https:// endpoint.
pub new_cluster_scope_iff :
    (c : NcxInfraCluster) (client : Option String) (secrets : String × String → Fetched Dict)
    (a : Access)
    → (new_cluster_scope c client secrets ≡ ok a) ↔ IsScopeOf c client secrets a
new_cluster_scope_iff c client secrets a =
    (new_cluster_scope-IsScopeOf c client secrets a, IsScopeOf-new_cluster_scope c client secrets a)
