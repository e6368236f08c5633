-- ===== src/Tests/Reaching.antt =====
-- The operations of the storage one after the other, at concrete inputs.
use marchimetrics.Base.{ℕ, ◌≡◌, refl, arith, false, [], ◌∷◌, List, ok}
use marchimetrics.Base.Str.{str_key, nat_key}
use marchimetrics.Label.{Label, canonical_key}
use marchimetrics.Sample.{Sample, weigh}
use marchimetrics.Partition.{no_fault, write_fails, manifest_fails}
use marchimetrics.Partition.Sizes.{one, IsInjective}
use marchimetrics.Engine.{Storage, FlushFaults, append_samples, flush}
use marchimetrics.Engine.Lifecycle.{
  open_storage, load_registry, replay_files, load_inverted, load_partitions,
}
use marchimetrics.Engine.Holding.{held}
use marchimetrics.Engine.DayIndex.{series_of}
use marchimetrics.Engine.Opening.{OnlyMergesFail}
use marchimetrics.Engine.Flushing.{IsSound, held-flush}
use marchimetrics.Engine.Appending.{held_at}
use marchimetrics.Engine.Compacting.{merged_storage}
use marchimetrics.Engine.Refinement.{
  Log, logged, HasSpace, Reach, opened, appended, flushed, merged, Implements, fresh,
  fresh-Implements, appended-Implements, held_at-Reach,
}
use marchimetrics.Tests.Disk.{sorted_samples}
use marchimetrics.Tests.Engine.{day_letter, no_number, morning, next_day}
use marchimetrics.Tests.Merging.{letter, sorted_samples-SortsByTime}

-- {host="a"}
abbrev pub host_a : List Label
host_a = record { name = 104 ∷ 111 ∷ 115 ∷ 116 ∷ []; value = 97 ∷ [] } ∷ []

abbrev pub two_samples : List Sample
two_samples = next_day ∷ morning ∷ []

-- Every merge fails at its manifest.
abbrev pub no_merge : FlushFaults
no_merge = record {
  registry_fails = false;
  index_fails = λ day. false;
  open_fails = λ day. false;
  part_fault = λ day. no_fault;
  merge_fault = λ day. manifest_fails;
}

pub no_merge-OnlyMergesFail : OnlyMergesFail no_merge
no_merge-OnlyMergesFail = record {
  registry_saved = refl;
  index_saved = λ day. refl;
  opened = λ day. refl;
  published = λ day. refl;
}

pub letter-IsInjective : IsInjective letter
letter-IsInjective i j e = cc

abbrev one_entry : Log
one_entry = (host_a, two_samples) ∷ []

first_space : HasSpace [] host_a two_samples
unfolding logged
first_space = record { ids = omega arith; sizes = omega arith; fits = ground arith }

abbrev appended_storage : Storage
appended_storage = (append_samples day_letter fresh host_a two_samples).0

appended_storage-Implements : Implements letter appended_storage one_entry
appended_storage-Implements =
    appended-Implements day_letter sorted_samples letter no_number sorted_samples-SortsByTime
      letter-IsInjective fresh [] host_a two_samples first_space (fresh-Implements 3 letter)

held-flush_example :
    let r = flush day_letter sorted_samples letter no_number no_merge appended_storage in
    (r.1 ≡ ok tt)
    × (r.0.mem ≡ [])
    × IsSound letter r.0
    × (series_of r.0.registry ≡ series_of appended_storage.registry)
    × ((w : Sample → ℕ) (id : ℕ) → held w id r.0 ≡ held w id appended_storage)
held-flush_example =
    held-flush day_letter sorted_samples letter no_number no_merge appended_storage
      sorted_samples-SortsByTime letter-IsInjective no_merge-OnlyMergesFail
      appended_storage-Implements.sound

second_space : HasSpace one_entry host_a two_samples
unfolding logged weigh one
second_space = record { ids = omega arith; sizes = ground arith; fits = ground arith }

abbrev flushed_storage : Storage
flushed_storage = (flush day_letter sorted_samples letter no_number no_merge appended_storage).0

abbrev appended_again : Storage
appended_again = (append_samples day_letter flushed_storage host_a two_samples).0

abbrev two_entries : Log
two_entries = (host_a, two_samples) ∷ one_entry

abbrev merged_last : Storage
merged_last =
    merged_storage day_letter sorted_samples letter no_number (λ day. write_fails) appended_again

reached : Reach day_letter sorted_samples letter no_number merged_last two_entries
unfolding open_storage load_registry replay_files load_inverted load_partitions
reached =
    merged appended_again two_entries (λ day. write_fails)
      (appended flushed_storage one_entry host_a two_samples second_space (
        flushed appended_storage one_entry no_merge no_merge-OnlyMergesFail
          (appended fresh [] host_a two_samples first_space (opened fresh 3 refl))))

held_at-Reach_example :
    held_at one (canonical_key host_a) merged_last ≡ logged one (canonical_key host_a) two_entries
held_at-Reach_example =
    held_at-Reach day_letter sorted_samples letter no_number sorted_samples-SortsByTime
      letter-IsInjective merged_last two_entries reached one host_a
