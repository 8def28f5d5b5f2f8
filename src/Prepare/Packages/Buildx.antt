-- ===== src/Prepare/Packages/Buildx.antt =====
-- What `ensureBuildx` returns with.
use message_pusher.Base.{◌≡◌, ap, true, inl, inr, Bool-cases}
use message_pusher.Text.{Text, txt, Env}
use message_pusher.Result.{ok}
use message_pusher.Machine.{Machine}
use message_pusher.Endpoints.{has_binary}
use message_pusher.Prepare.Arch.{host_arch}
use message_pusher.Prepare.Packages.{
  detect_manager, install_buildx, download_buildx, download_command, buildx_url, buildx_dest,
  ensure_buildx,
}

module _ (machine : Machine) (env : Env) where
  -- The last step before a world was a `docker buildx version` that succeeded.
  abbrev pub HasBuildx : machine.World → Type 0
  HasBuildx w = (before : machine.World) × (has_binary machine (txt "buildx") before ≡ (w, true))

  has_binary-eq-true :
      (w : machine.World)
      → (has_binary machine (txt "buildx") w).1 ≡ true
      → HasBuildx (has_binary machine (txt "buildx") w).0
  has_binary-eq-true w h = (w, ap (λ b. ((has_binary machine (txt "buildx") w).0, b)) h)

  download_buildx-HasBuildx :
      (w : machine.World) (source : Text)
      → (download_buildx machine env w).1 ≡ ok source
      → HasBuildx (download_buildx machine env w).0
  download_buildx-HasBuildx w source h =
      let (w1, arch) = host_arch machine w in
      let w2 = (machine.run w1 (download_command (buildx_url env arch) (buildx_dest env))).0 in
      elim (Bool-cases (has_binary machine (txt "buildx") w2).1) [
        | inl there ↦ has_binary-eq-true w2 there
        | inr missing ↦ let h1 = rw missing at h in cc h1
      ]

  -- If `ensureBuildx` returns, then whichever way it took, the last thing it has done is a
  -- `docker buildx version` that succeeded.
  pub ensure_buildx-HasBuildx :
      (w : machine.World) (source : Text)
      → (ensure_buildx machine env w).1 ≡ ok source
      → HasBuildx (ensure_buildx machine env w).0
  unfolding ensure_buildx
  ensure_buildx-HasBuildx w source h =
      let (w1, shipped) = has_binary machine (txt "buildx") w in
      let (w2, manager) = detect_manager machine w1 in
      let w3 = install_buildx machine manager w2 in
      elim (Bool-cases shipped) [
        | inl there ↦ rw there (has_binary-eq-true w there)
        | inr missing ↦
            let h1 = rw missing at h in
            elim (Bool-cases (has_binary machine (txt "buildx") w3).1) [
              | inl there ↦ rw (missing, there) (has_binary-eq-true w3 there)
              | inr still ↦
                  let h2 = rw still at h1 in
                  rw (missing, still)
                    (download_buildx-HasBuildx (has_binary machine (txt "buildx") w3).0 source h2)
            ]
      ]
