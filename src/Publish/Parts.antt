-- ===== src/Publish/Parts.antt =====
-- The interfaces of publishing as the program fills them: OCI clients that keep their token, and the
-- builders of builder.py.
use k_dash.Base.{◌≡◌, refl, String, Option, none, some, List, Result}
use k_dash.Base.Exec.{Exec, lift, Leaves}
use k_dash.Json.{Value}
use k_dash.External.{Bytes, Libraries}
use k_dash.Artifact.{Codec}
use k_dash.Oci.{Http, Client, Session, Manifest, lookup_text}
use k_dash.Oci.Methods.{get_manifest, push}
use k_dash.Project.{Readers}
use k_dash.Project.Tree.{Fnmatch}
use k_dash.Runtime.{Credentials, client_of}
use k_dash.Builder.{Nix, local_jit, nix_aot}
use k_dash.Builder.Docker.{Docker, docker_aot}
use k_dash.Publish.Objects.{Clients, Builders, put_text}
use k_dash.Publish.Quiet.{ReadsOnly}

-- The network, with the token of each client by the name of its registry; the names of a configuration are
-- distinct.
pub record Tokens (W : Type 0) : Type 0 where
  pub tokens : List (String × String)
  pub world : W

abbrev pub keep_token :
    (name : String) → Option String → List (String × String) → List (String × String)
keep_token name none tokens = tokens
keep_token name (some t) tokens = put_text name t tokens

module _ {W : Type 0} where
  -- A call on a client that was opened before: it starts with the token that the last call left.
  abbrev pub end_use {ℓ} :
      {A : Type ℓ}
      → (name : String) → List (String × String)
      → Result A × Session W
      → Result A × Tokens W
  end_use name tokens (result, s) =
      (result, record { tokens = keep_token name s.token tokens; world = s.world })

  abbrev pub use_client {ℓ} : {A : Type ℓ} → Client → Exec (Session W) A → Exec (Tokens W) A
  use_client c call s =
      end_use c.name s.tokens
        (call (record { token = lookup_text c.name s.tokens; world = s.world }))

  abbrev pub oci_clients : Libraries → Http W → Credentials → Clients (Tokens W)
  oci_clients lib http credentials = record {
    open_client = client_of credentials;
    get_manifest = λ c reference. use_client c (get_manifest lib http c reference);
    push = λ c reference config layers manifest.
        use_client c (push lib http c reference config layers manifest);
  }

-- The builders, over a daemon in some state
abbrev pub all_builders :
    {D : Type 0} → Libraries → Readers → Fnmatch → Codec → Nix → Docker D → Builders D
all_builders lib rd fnmatch codec nix docker = record {
  docker = docker_aot lib rd fnmatch codec nix docker;
  nix = λ source spec. lift (nix_aot lib rd nix source spec);
  jit = λ source spec. lift (local_jit lib rd nix source spec);
}

-- The network and the daemon together
pub record Outside (N D : Type 0) : Type 0 where
  pub network : N
  pub daemon : D

module _ {N D : Type 0} where
  abbrev pub at_network {ℓ} : {A : Type ℓ} → D → Result A × N → Result A × Outside N D
  at_network d (result, n) = (result, record { network = n; daemon = d })

  abbrev pub at_daemon {ℓ} : {A : Type ℓ} → N → Result A × D → Result A × Outside N D
  at_daemon n (result, d) = (result, record { network = n; daemon = d })

  abbrev pub outside_clients : Clients N → Clients (Outside N D)
  outside_clients c = record {
    open_client = c.open_client;
    get_manifest =
        λ client reference w. at_network w.daemon (c.get_manifest client reference w.network);
    push = λ client reference config layers manifest w.
        at_network w.daemon (c.push client reference config layers manifest w.network);
  }

  abbrev pub outside_builders : Builders D → Builders (Outside N D)
  outside_builders b = record {
    docker = λ image source spec w. at_daemon w.network (b.docker image source spec w.daemon);
    nix = λ source spec w. at_daemon w.network (b.nix source spec w.daemon);
    jit = λ source spec w. at_daemon w.network (b.jit source spec w.daemon);
  }

  -- What building leaves of the network, and asking of the daemon, holds for what was pushed.
  pub outside-ReadsOnly :
      {L : Type 0} (c : Clients N) (b : Builders D) (log : N → L)
      → ((client : Client) (tag : String) → Leaves log (c.get_manifest client tag))
      → ReadsOnly (outside_clients c) (outside_builders b) (λ w. log w.network)
  outside-ReadsOnly c b log asks = record {
    asks = λ client tag w. go (c.get_manifest client tag w.network) w (asks client tag w.network);
    docker_builds = λ image source spec w. built (b.docker image source spec w.daemon) w;
    nix_builds = λ source spec w. built (b.nix source spec w.daemon) w;
  }
    where
      go :
          (r : Result Manifest × N) (w : Outside N D)
          → log r.1 ≡ log w.network
          → log (at_network w.daemon r).1.network ≡ log w.network
      go (m, n) w e = e

      built :
          (r : Result (Bytes × Value) × D) (w : Outside N D)
          → log (at_daemon w.network r).1.network ≡ log w.network
      built (m, d) w = refl
