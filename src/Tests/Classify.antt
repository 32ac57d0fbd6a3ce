-- ===== src/Tests/Classify.antt =====
-- Tests of the classification of a catchup operation against a staged one.
use leyline.Base.{[], arith, codes, is_none, refl, some, true, ◌≡◌}
use leyline.Protocol.Op.{IsValid}
use leyline.Merge.Classify.{Context}
use leyline.Merge.Classify.Route.{classify}
use leyline.Merge.Classify.Rebase.{IfSome, IsRebasedWrite, classify-rebases_write}
use leyline.Merge.Classify.Validity.{classify-passes_validation}
use leyline.Merge.Classify.Outcome.{IsRefused, classify-drops, classify-IsRefused_rename}
use leyline.Tests.Samples.{delete_op, rename_op, same_bytes, whole_diff, write_op}

abbrev ctx : Context
ctx = record {
  base = codes "base";
  diff_mode = [];
  server_keyname = codes "bob";
  client_keyname = codes "ann";
  ts = codes "7";
}

classify-rebases_write_example :
    IsRebasedWrite same_bytes whole_diff (write_op 9 "a.md" "theirs") (write_op 4 "a.md" "mine") (
      classify same_bytes whole_diff
        (write_op 9 "a.md" "theirs")
        (some (write_op 4 "a.md" "mine"))
        ctx)
classify-rebases_write_example =
    classify-rebases_write same_bytes whole_diff (write_op 9 "a.md" "theirs")
      (write_op 4 "a.md" "mine") ctx refl refl

delete-IsValid : IsValid (delete_op 9 "a.md")
delete-IsValid = record {
  seq = omega arith;
  ts = (6, refl);
  fields = (λ e. cc, λ e. cc, refl, refl, refl, refl);
}

write-IsValid : IsValid (write_op 4 "a.md" "mine")
write-IsValid = record {
  seq = omega arith;
  ts = (6, refl);
  fields = (λ e. cc, λ e. cc, refl, refl);
}

rename-IsValid : IsValid (rename_op 4 "a.md" "b.md")
rename-IsValid = record {
  seq = omega arith;
  ts = (6, refl);
  fields = (λ e. cc, λ e. cc, λ e. cc, refl, refl, refl);
}

classify-passes_validation_example :
    IfSome IsValid
      (classify same_bytes whole_diff
        (delete_op 9 "a.md")
        (some (write_op 4 "a.md" "mine"))
        ctx).replacement_staged
classify-passes_validation_example =
    classify-passes_validation same_bytes whole_diff (delete_op 9 "a.md") (write_op 4 "a.md" "mine")
      ctx delete-IsValid write-IsValid tt

classify-drops_example :
    is_none
      (classify same_bytes whole_diff
        (delete_op 9 "a.md")
        (some (delete_op 4 "a.md"))
        ctx).replacement_staged
    ≡ true
classify-drops_example =
    classify-drops same_bytes whole_diff (delete_op 9 "a.md") (delete_op 4 "a.md") ctx

classify-IsRefused_rename_example : IsRefused same_bytes whole_diff (
    classify same_bytes whole_diff
      (write_op 9 "a.md" "theirs")
      (some (rename_op 4 "a.md" "b.md"))
      ctx)
classify-IsRefused_rename_example =
    classify-IsRefused_rename same_bytes whole_diff (write_op 9 "a.md" "theirs")
      (rename_op 4 "a.md" "b.md") ctx tt refl rename-IsValid
