-- ===== src/Config/Order.antt =====
-- What the order and the grouping of the configuration files mean.
use mathlib.Core.List.{Permᴰ}
use replicator.Base.{String, Option, none, some, List, [], ◌∷◌, ◌≡◌, refl, sym, ap, ◌∙◌}
use replicator.Config.{Config, Handles, merge}
use replicator.Config.Sort.{sort_strings_perm, sort_strings-ne-nil}
use replicator.Config.Parse.{Hcl, Outcome, crashed, failing, returned, and_then}
use replicator.Config.Load.{Files, load_file, load_files, load_listed}
use replicator.Config.Laws.{merge_assoc}

module _ {H : Handles} {W : Type 0} (hcl : Hcl H W) (fs : Files) where
  -- A directory gives the same configuration, or the same failure, in whatever order its files are
  -- listed.
  pub load_listed_perm :
      (xs ys : List String) → Permᴰ xs ys → load_listed hcl fs xs ≡ load_listed hcl fs ys
  unfolding load_listed
  load_listed_perm [] [] p = refl
  load_listed_perm [] (y ∷ ys) p = absurd (sort_strings-ne-nil y ys (sym (sort_strings_perm p)))
  load_listed_perm (x ∷ xs) [] p = absurd (sort_strings-ne-nil x xs (sort_strings_perm p))
  load_listed_perm (x ∷ xs) (y ∷ ys) p =
      ap
        (λ files. and_then (load_files hcl fs none files) (λ result.
          elim result as (λ _. Outcome (Config H W)) [ none ↦ crashed | some c ↦ returned c ]))
        (sort_strings_perm p)

  -- A configuration with what the files give by themselves merged into it.
  abbrev pub merged : Config H W → Option (Config H W) → Outcome (Option (Config H W))
  merged c none = returned (some c)
  merged c (some d) = returned (some (merge c d))

  merged_twice :
      (c config : Config H W) (o : Outcome (Option (Config H W)))
      → and_then o (merged (merge c config)) ≡ and_then (and_then o (merged config)) (merged c)
  unfolding and_then
  merged_twice c config crashed = refl
  merged_twice c config failing = refl
  merged_twice c config (returned none) = refl
  merged_twice c config (returned (some d)) = ap (λ m. returned (some m)) (merge_assoc c config d)

  -- Loading files on top of a configuration, one by one, is loading them by themselves and merging
  -- the configuration with the result, errors and panics included.
  pub load_files-merge :
      (c : Config H W) (files : List String)
      → load_files hcl fs (some c) files ≡ and_then (load_files hcl fs none files) (merged c)
  unfolding load_files and_then
  load_files-merge c [] = refl
  load_files-merge c (f ∷ files) = go (load_file hcl fs f) refl (λ d. load_files-merge d files)
    where
      go :
          (loaded : Outcome (Config H W))
          → load_file hcl fs f ≡ loaded
          → ((d : Config H W)
              → load_files hcl fs (some d) files
                ≡ and_then (load_files hcl fs none files) (merged d))
          → load_files hcl fs (some c) (f ∷ files)
            ≡ and_then (load_files hcl fs none (f ∷ files)) (merged c)
      go crashed e rest = rw (e, load_files, and_then) refl
      go failing e rest = rw (e, load_files, and_then) refl
      go (returned config) e rest =
          rw (e, load_files, and_then)
            (rest (merge c config)
              ∙ merged_twice c config (load_files hcl fs none files)
              ∙ ap (λ o. and_then o (merged c)) (sym (rest config)))
