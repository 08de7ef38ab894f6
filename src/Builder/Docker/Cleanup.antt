-- ===== src/Builder/Docker/Cleanup.antt =====
-- No build leaves a container behind.
use k_dash.Base.{
  ℕ, suc, ◌-◌, ◌≡◌, refl, ◌∙◌, ap, String, false, not, Result, ok, err, raise_if, arith, Error,
}
use k_dash.Base.Exec.{
  Exec, lift, ◌>>=◌, continue, after, finally, Leaves, bind-Leaves, choose-Leaves,
}
use k_dash.Json.{get_or_null}
use k_dash.External.{Libraries}
use k_dash.Model.{BuildSpec}
use k_dash.Artifact.{Codec, equals_nat}
use k_dash.Project.{Readers, or_raise}
use k_dash.Project.Tree.{Entries, Fnmatch}
use k_dash.Project.Extract.{materialize_source_tree}
use k_dash.Builder.{Nix, item_of, driver_of}
use k_dash.Builder.Docker.{
  ContainerRequest, Context, Docker, store_volume, container_request, ensure_volume, check_status,
  run_container, docker_aot,
}

-- What the daemon's calls do to the number of containers that there are.
pub record Counts {D : Type 0} (docker : Docker D) (containers : D → ℕ) : Type 0 where
  pub connects : Leaves containers docker.connect
  pub looks : (v : String) → Leaves containers (docker.has_volume v)
  pub stores : (v : String) → Leaves containers (docker.create_volume v)
  -- a creation that raises leaves none
  pub creates :
      (request : ContainerRequest) (d : D) {name : String} {e : D}
      → docker.create request d ≡ (ok name, e)
      → containers e ≡ suc (containers d)
  pub refuses :
      (request : ContainerRequest) (d : D) {x : Error} {e : D}
      → docker.create request d ≡ (err x, e)
      → containers e ≡ containers d
  pub streams : (c : String) (context : Context) → Leaves containers (docker.put_archive c context)
  pub starts : (c : String) → Leaves containers (docker.start c)
  pub waits : (c : String) (n : ℕ) → Leaves containers (docker.wait c n)
  pub prints : (c : String) → Leaves containers (docker.logs c)
  pub fetches : (c path : String) → Leaves containers (docker.get_archive c path)
  pub identifies : (image : String) → Leaves containers (docker.image_id image)
  pub removes : (c : String) (d : D) → containers (docker.remove c d).1 ≡ containers d - 1

module _ {D : Type 0} (lib : Libraries) (rd : Readers) (fnmatch : Fnmatch) (codec : Codec)
    (nix : Nix) (docker : Docker D) (containers : D → ℕ) (laws : Counts docker containers) where
  run_container-Leaves :
      (image c : String) (context : Context)
      → Leaves containers (run_container lib rd fnmatch codec nix docker image c context)
  unfolding run_container
  run_container-Leaves image c context =
      bind-Leaves containers (docker.put_archive c context) _ (laws.streams c context) λ streamed.
        bind-Leaves containers (lift (raise_if (not streamed) _)) _ (λ d. refl)
          λ _. bind-Leaves containers (docker.start c) _ (laws.starts c) λ _.
            bind-Leaves containers (lift (or_raise nix.aot_timeout _)) _ (λ d. refl)
              λ timeout.
                bind-Leaves containers (docker.wait c timeout) _ (laws.waits c timeout) λ status.
                  bind-Leaves containers (check_status lib rd fnmatch codec nix docker c status) _
                    (choose-Leaves containers (equals_nat 0 (get_or_null "StatusCode" status)) _ _
                      (λ d. refl)
                      (bind-Leaves containers (docker.logs c) _ (laws.prints c) λ _ d. refl))
                    λ _.
                      bind-Leaves containers (docker.get_archive c "/tmp/kernel.so") _
                        (laws.fetches c "/tmp/kernel.so")
                        λ bits.
                          bind-Leaves containers (lift (docker.extract_kernel bits)) _ (λ d. refl)
                            λ o.
                              bind-Leaves containers (lift (or_raise o _)) _ (λ d. refl)
                                λ payload.
                                  bind-Leaves containers (docker.image_id image) _
                                    (laws.identifies image) λ id d. refl

  -- With a container that was just created, everything up to its removal.
  removed {ℓ} :
      {A : Type ℓ} (m : Exec D A) (c : String) (d : D)
      → Leaves containers m
      → containers (finally m (docker.remove c) d).1 ≡ containers d - 1
  removed {A = A} m c d keep =
      go (m d).0 (docker.remove c (m d).1) ∙ laws.removes c (m d).1 ∙ ap (λ n. n - 1) (keep d)
    where
      go :
          (r : Result A) (end : Result (Unit {0}) × D)
          → containers (after r end).1 ≡ containers end.1
      go r (ok u, t) = refl
      go r (err x, t) = refl

  in_container {ℓ} :
      {A : Type ℓ} (request : ContainerRequest) (m : String → Exec D A)
      → ((c : String) → Leaves containers (m c))
      → Leaves containers (docker.create request >>= λ c. finally (m c) (docker.remove c))
  in_container {A = A} request m keep d = go (docker.create request d) refl
    where
      go :
          (r : Result String × D)
          → docker.create request d ≡ r
          → containers (continue (λ c. finally (m c) (docker.remove c)) r).1 ≡ containers d
      go (ok c, e) h =
          removed (m c) c e (keep c) ∙ ap (λ n. n - 1) (laws.creates request d h) ∙ (omega arith)
      go (err x, e) h = laws.refuses request d h

  -- However a Docker build ends, with a kernel.so or with an exception raised anywhere on the way, there
  -- are as many containers as before, if the daemon's create adds one, its remove takes one away and no
  -- other call does either.
  pub docker_aot-containers :
      (image : String) (source : Entries) (spec : BuildSpec) (d : D)
      → containers (docker_aot lib rd fnmatch codec nix docker image source spec d).1 ≡ containers d
  unfolding docker_aot ensure_volume
  docker_aot-containers image source spec =
      bind-Leaves containers (lift (raise_if (not docker.installed) _)) _ (λ d. refl)
        λ _. bind-Leaves containers docker.connect _ laws.connects λ _.
          bind-Leaves containers (ensure_volume lib rd fnmatch codec nix docker) _
            (bind-Leaves containers (docker.has_volume store_volume) _ (laws.looks store_volume)
              λ there. choose-Leaves containers there _ _ (λ d. refl) (laws.stores store_volume))
            λ _.
              bind-Leaves containers
                (lift (materialize_source_tree lib rd fnmatch codec source false)) _ (λ d. refl)
                λ staged.
                  bind-Leaves containers (lift (driver_of lib rd nix "/tmp/source" spec)) _
                    (λ d. refl)
                    λ driver.
                      bind-Leaves containers (lift (item_of "arch" spec.target)) _ (λ d. refl)
                        λ arch. in_container (container_request image arch) _ λ c.
                          run_container-Leaves image c (record { source = staged; driver = driver })
