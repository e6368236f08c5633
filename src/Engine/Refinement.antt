-- ===== src/Engine/Refinement.antt =====
-- The storage of storage/storage.go and storage/compaction.go against a log: a list of label sets
-- with the samples that were appended to them, the last first.
use marchimetrics.Base.{
  ℕ, ◌+◌, ◌^◌, ◌≤◌, ◌<◌, ◌≡◌, refl, ap, ◌∙◌, arith, List, [], ◌∷◌, All, Option, none, some, ok,
  if◌then◌else◌, length,
}
use marchimetrics.Base.Str.{Str, str_key, nat_key, ◌==◌}
use marchimetrics.GoMap.{lookup}
use marchimetrics.GoMap.Sums.{sum_of, value_of}
use marchimetrics.Label.{Label, canonical_key}
use marchimetrics.Registry.{new_registry}
use marchimetrics.Registry.Resolve.{new_registry-IsValid}
use marchimetrics.Sample.{Sample, weigh, FitsSample, SortsByTime}
use marchimetrics.Partition.{Fault}
use marchimetrics.Partition.Counting.{total_weight}
use marchimetrics.Partition.Sizes.{one, IsInjective, weigh-one, misfit-FitsSample}
use marchimetrics.Engine.{Storage, FlushFaults, append_samples, flush}
use marchimetrics.Engine.Lifecycle.{
  open_storage, load_registry, replay_files, load_inverted, load_partitions,
}
use marchimetrics.Engine.Holding.{held, disk_weight}
use marchimetrics.Engine.DayIndex.{Series, series_of}
use marchimetrics.Engine.Opening.{OnlyMergesFail}
use marchimetrics.Engine.Flushing.{IsSound, held-flush}
use marchimetrics.Engine.Appending.{
  held_at, append_samples-IsAppended, append_samples-IsSound, held_at-append_samples,
  held_at-resolved, next_id-appended,
}
use marchimetrics.Engine.Compacting.{merged_storage, held-force_merge}

abbrev pub Log : Type 0
Log = List (List Label × List Sample)

-- The samples that were appended to label sets with the canonical key.
unfoldable pub logged : (Sample → ℕ) → Str → Log → ℕ
logged w k [] = 0
logged w k ((ls, s) ∷ log) = (if canonical_key ls == k then weigh w s else 0) + logged w k log

-- The log has ids and sizes left for the samples.
pub record HasSpace (log : Log) (ls : List Label) (s : List Sample) : Type 0 where
  pub ids : length log + 2 < 2 ^ 64
  pub sizes : logged one (canonical_key ls) log + length s < 2 ^ 64
  pub fits : All FitsSample s

-- `store.SmallPartsMergeThreshold = *mergeThreshold` in main.
abbrev pub with_threshold : ℕ → Storage → Storage
with_threshold min st = record st { small_parts_merge_threshold = min }

-- The storages that a process reaches from an empty directory, with any threshold for merges, by
-- Append within HasSpace, Flush in which at most merges fail, and ForceMerge in which anything fails,
-- with the log of what was appended.
pub data Reach (day_string : ℕ → Str) (sort_slice : List Sample → List Sample) (part_name : ℕ → Str)
    (atoi : Str → Option ℕ) : Storage → Log → Type 0 where
  opened :
      (st : Storage) (min : ℕ)
      → open_storage atoi [] [] [] ≡ ok st
      → Reach day_string sort_slice part_name atoi (with_threshold min st) []
  appended :
      (st : Storage) (log : Log) (ls : List Label) (s : List Sample)
      → HasSpace log ls s
      → Reach day_string sort_slice part_name atoi st log
      → Reach day_string sort_slice part_name atoi
          (append_samples day_string st ls s).0
          ((ls, s) ∷ log)
  flushed :
      (st : Storage) (log : Log) (faults : FlushFaults)
      → OnlyMergesFail faults
      → Reach day_string sort_slice part_name atoi st log
      → Reach day_string sort_slice part_name atoi
          (flush day_string sort_slice part_name atoi faults st).0
          log
  merged :
      (st : Storage) (log : Log) (faults : Str → Fault)
      → Reach day_string sort_slice part_name atoi st log
      → Reach day_string sort_slice part_name atoi
          (merged_storage day_string sort_slice part_name atoi faults st)
          log

value_of-same : (f g : ℕ → ℕ) → ((i : ℕ) → f i ≡ g i) → (o : Option ℕ) → value_of f o ≡ value_of g o
value_of-same f g same none = refl
value_of-same f g same (some i) = same i

pub record Implements (part_name : ℕ → Str) (st : Storage) (log : Log) : Type 0 where
  pub sound : IsSound part_name st
  pub ids : st.registry.next_id ≤ length log + 1
  pub same : (w : Sample → ℕ) (k : Str) → held_at w k st ≡ logged w k log

abbrev pub fresh : Storage
fresh = record {
  registry = new_registry;
  mem = [];
  partitions = [];
  small_parts_merge_threshold = 3;
  forward_segments = [];
  inverted_segments = [];
  left_files = [];
}

pub fresh-Implements :
    (min : ℕ) (part_name : ℕ → Str) → Implements part_name (with_threshold min fresh) []
unfolding held held_at total_weight disk_weight sum_of lookup logged
fresh-Implements min part_name = record {
  sound = record {
    valid = new_registry-IsValid;
    unused = λ w id above. refl;
    known = tt;
    named = tt;
    swept = tt;
    sized = λ j. (omega arith, refl);
  };
  ids = omega arith;
  same = λ w k. refl;
}

module _ (day_string : ℕ → Str) (sort_slice : List Sample → List Sample) (part_name : ℕ → Str)
    (atoi : Str → Option ℕ) (sorts : SortsByTime sort_slice)
    (distinct : IsInjective part_name) where
  opened-Implements :
      (st : Storage) (min : ℕ)
      → open_storage atoi [] [] [] ≡ ok st
      → Implements part_name (with_threshold min st) []
  unfolding open_storage load_registry replay_files load_inverted load_partitions
  opened-Implements st min e =
      let same : ok fresh ≡ ok st = e in
      let is_fresh : fresh ≡ st = cc in rw (← is_fresh) (fresh-Implements min part_name)

  pub appended-Implements :
      (st : Storage) (log : Log) (ls : List Label) (s : List Sample)
      → HasSpace log ls s
      → Implements part_name st log
      → Implements part_name (append_samples day_string st ls s).0 ((ls, s) ∷ log)
  unfolding logged append_samples weigh
  appended-Implements st log ls [] space was = record {
    sound = was.sound;
    ids = omega (arith, was.ids);
    same = λ w k. ground (arith, was.same w k);
  }
  appended-Implements st log ls (sm ∷ sms) space was =
      let s = sm ∷ sms in
      let r = append_samples day_string st ls s in
      let step = append_samples-IsAppended day_string st ls sm sms in
      let room : st.registry.next_id + 1 < 2 ^ 64 = omega (arith, was.ids, space.ids) in
      let valid = was.sound.valid in
      let unused = was.sound.unused in
      let few : held one r.1 st + weigh one s < 2 ^ 64 = omega (
        arith,
        held_at-resolved st ls s r step one valid room (unused one),
        was.same one (canonical_key ls),
        space.sizes,
        weigh-one s,
      ) in
      let none_odd = misfit-FitsSample s space.fits in
      record {
        sound = append_samples-IsSound st ls s r step part_name was.sound room few none_odd;
        ids = omega (arith, was.ids, next_id-appended st ls s r step valid room);
        same = λ w k.
            held_at-append_samples st ls s r step valid room w k (unused w)
            ∙ ground (arith, was.same w k);
      }

  -- A step that keeps the ids and what is held.
  kept-Implements :
      (st st' : Storage) (log : Log)
      → IsSound part_name st'
      → series_of st'.registry ≡ series_of st.registry
      → ((w : Sample → ℕ) (id : ℕ) → held w id st' ≡ held w id st)
      → Implements part_name st log
      → Implements part_name st' log
  unfolding held_at
  kept-Implements st st' log sound ids same was = record {
    sound = sound;
    ids = omega (arith, ap (λ (x : Series). x.0) ids, was.ids);
    same = λ w k.
        ap (λ (x : Series). value_of (λ id. held w id st') (lookup k x.1)) ids
        ∙ value_of-same (λ id. held w id st') (λ id. held w id st) (same w)
            (lookup k st.registry.by_key)
        ∙ was.same w k;
  }

  Reach-Implements :
      (st : Storage) (log : Log)
      → Reach day_string sort_slice part_name atoi st log
      → Implements part_name st log
  Reach-Implements _ _ (opened st min e) = opened-Implements st min e
  Reach-Implements _ _ (appended st log ls s space before) =
      appended-Implements st log ls s space (Reach-Implements st log before)
  Reach-Implements _ _ (flushed st log faults only before) =
      let was = Reach-Implements st log before in
      let (done, empty, sound, series, same) =
        held-flush day_string sort_slice part_name atoi faults st sorts distinct only was.sound in
      kept-Implements st (flush day_string sort_slice part_name atoi faults st).0 log sound series
        same was
  Reach-Implements _ _ (merged st log faults before) =
      let was = Reach-Implements st log before in
      let (sound, same) =
        held-force_merge day_string sort_slice part_name atoi sorts distinct faults st was.sound in
      kept-Implements st (merged_storage day_string sort_slice part_name atoi faults st) log sound
        refl same was

  -- Where the sort sorts and part names differ, a storage that a process reaches from an empty
  -- directory, by any Append, Flush and ForceMerge in any order with only merges failing, holds of
  -- every label set exactly the samples that were appended to label sets with its canonical key,
  -- each as often as it was appended. The threshold for merges is any. Every Append has valid samples
  -- and leaves ids and sample counts below 2^64 (HasSpace).
  pub held_at-Reach :
      (st : Storage) (log : Log)
      → Reach day_string sort_slice part_name atoi st log
      → (w : Sample → ℕ) (ls : List Label)
      → held_at w (canonical_key ls) st ≡ logged w (canonical_key ls) log
  held_at-Reach st log reach w ls = (Reach-Implements st log reach).same w (canonical_key ls)
