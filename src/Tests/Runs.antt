-- ===== src/Tests/Runs.antt =====
-- A run of the server.
use leyline.Base.{List, Option, Text, codes, false, inl, refl, some, ◌≢◌}
use leyline.Protocol.Op.{Hash, Op}
use leyline.Hub.State.{VaultState}
use leyline.Hub.Commit.{commit_stage, failed_after, truncated}
use leyline.Hub.Runs.{IsSound, Runs, Runs-IsSound, here, step_commit, step_push, then_step}
use leyline.Tests.Samples.{no_head, same_bytes}
use leyline.Tests.Hub.{
  ann, any_form, any_glob, batch, clock, config, no_error, peer_log, peer_stage, push-IsOk, pushed,
  rules, vault, vault-AreApart, vault-IsDurable,
}

-- A store of commits that takes everything.
abbrev commits : List Op → Text → Option Hash
commits ops author = some (codes "h2")

truncated-ne : truncated ≢ failed_after
truncated-ne e = cc

vault-IsSound :
    IsSound any_glob any_form same_bytes no_head no_error commits (codes "v") config vault
vault-IsSound = record { log = peer_log; durable = vault-IsDurable; apart = vault-AreApart }

-- After the commit of the other client's stage.
abbrev settled : VaultState
settled = (commit_stage commits truncated false (codes "v") pushed peer_stage).vault

-- A push, and the commit of the other client's stage.
some_run :
    Runs any_glob any_form same_bytes no_head no_error commits (codes "v") config vault settled
some_run =
    then_step vault pushed settled
      (step_push clock ann ann.failed_push_limiter vault batch rules refl (inl push-IsOk))
      (then_step pushed settled settled (step_commit truncated false pushed peer_stage truncated-ne)
        (here settled))

Runs-IsSound_example :
    IsSound any_glob any_form same_bytes no_head no_error commits (codes "v") config settled
Runs-IsSound_example =
    Runs-IsSound any_glob any_form same_bytes no_head no_error commits (codes "v") config vault
      settled some_run vault-IsSound
