-- ===== src/Samples/Trees.antt =====
-- Source trees and their digests, and the outputs of a job.
use ray_dispatcher.Base.{
  arith, ◌≡◌, refl, true, false, none, [], ◌∷◌, ◌++◌, Str, codes, str_discrete, octal,
}
use ray_dispatcher.Values.{Job, OutputSpec}
use ray_dispatcher.Names.{is_valid_job_id}
use ray_dispatcher.Paths.{normalize_relative, normpath, split, has_nul, escapes, components}
use ray_dispatcher.Digests.{SourceFile, file, source_stream}
use ray_dispatcher.Digests.Stream.{source_stream_injective}
use ray_dispatcher.Validation.{is_prefix, parts_of, new_job}
use ray_dispatcher.Validation.Outputs.{new_job-apart}

abbrev one_file : Str → SourceFile
one_file bytes = record { rel = codes "a"; content = file 420 bytes }

abbrev other_file : Str → SourceFile
other_file bytes = record { rel = codes "b"; content = file 420 bytes }

source_stream_injective_example :
    (one_file (codes "x") ∷ other_file (codes "y") ∷ [])
    ≡ (one_file (codes "x") ∷ other_file (codes "y") ∷ [])
unfolding source_stream octal
source_stream_injective_example =
    source_stream_injective (one_file (codes "x") ∷ other_file (codes "y") ∷ [])
      (one_file (codes "x") ∷ other_file (codes "y") ∷ [])
      (
        ((refl, tt), (omega arith, omega arith, (refl, tt))),
        (((refl, tt), (omega arith, omega arith, (refl, tt))), tt),
      )
      (
        ((refl, tt), (omega arith, omega arith, (refl, tt))),
        (((refl, tt), (omega arith, omega arith, (refl, tt))), tt),
      )
      refl

-- With a NUL in a file, one file and two files feed the same bytes to the hash.
same_stream :
    source_stream (one_file (codes "x" ++ 0 ∷ codes "b" ++ 0 ∷ codes "M644y") ∷ [])
    ≡ source_stream (one_file (codes "x") ∷ other_file (codes "y") ∷ [])
unfolding source_stream octal
same_stream = refl

abbrev output_at : Str → OutputSpec
output_at path = record { source = path; destination = none; required = true }

abbrev job : Job
job = record {
  id = codes "j";
  command = codes "run" ∷ [];
  inputs = [];
  outputs = output_at (codes "a/b") ∷ output_at (codes "a/c") ∷ [];
  env = [];
  timeout_s = none;
  cwd = codes ".";
}

new_job-apart_example :
    is_prefix (parts_of (output_at (codes "a/c"))) (codes "a" ∷ codes "b" ∷ []) ≡ false
unfolding new_job is_valid_job_id parts_of is_prefix components normalize_relative normpath split
    has_nul escapes str_discrete
new_job-apart_example =
    new_job-apart job job [] [] [] (output_at (codes "a/b")) (output_at (codes "a/c"))
      (codes "a" ∷ codes "b" ∷ []) refl refl refl
