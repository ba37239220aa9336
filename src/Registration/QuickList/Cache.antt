-- ===== src/Registration/QuickList/Cache.antt =====
-- src/RegistrationQuickRegister.cpp: what a hit of the cache shows, while other threads invalidate
-- the cache, build lists and store them.
use codex_of_power_ng.Base.{ℕ, ◌≡◌, ◌≤◌, ◌<◌, ◌⊎◌, Bool, true, some, List, [], ◌∷◌, All, get_elem?}
use codex_of_power_ng.Base.Word.{u64_max}
use codex_of_power_ng.Registration.QuickList.{
  QuickListState, update_quick_list_cache, bump_generation, clear_quick_list_cache_storage,
  empty_cache,
}

-- A call of BuildQuickRegisterList that builds a list: the settings and the generation that it read
-- at its beginning, and whether it began after the invalidation in question.
pub record RunningBuild : Type 0 where
  pub settings_mask : ℕ
  pub generation : ℕ
  pub after : Bool

module _ (A : Type 0) where
  -- The shared cache, and the builds that have begun.
  pub record Builders : Type 0 where
    pub list : QuickListState A
    pub running : List RunningBuild

-- `P m l`: a build that reads the settings `m` may find the list `l` after the invalidation.
module _ {A : Type 0} (P : ℕ → List A → Type 0) where
  abbrev pub no_builders : Builders A
  no_builders = record {
    list = record { cache = empty_cache; current_generation = 1 };
    running = [];
  }

  -- The two halves of an invalidation, and the begin and the end of a build, by any threads in any
  -- order; the 64 bits of the generation do not wrap round. Builds that began before the
  -- invalidation store any list.
  pub data Step (after : Bool) (s : Builders A) : Builders A → Type 0 where
    bumped :
        s.list.current_generation < u64_max
        → Step after s (record s { list = bump_generation s.list })
    cleared : Step after s (record s { list = clear_quick_list_cache_storage s.list })
    began :
        (m : ℕ)
        → Step after s (record s {
          running =
              record { settings_mask = m; generation = s.list.current_generation; after = after }
              ∷ s.running;
        })
    finished :
        (i : ℕ) (b : RunningBuild) (all : List A) (now : ℕ)
        → get_elem? s.running i ≡ some b
        → (b.after ≡ true → P b.settings_mask all)
        → Step after s (record s {
          list = update_quick_list_cache all b.generation b.settings_mask now s.list;
        })

  pub data Reaches (after : Bool) (s : Builders A) : Builders A → Type 0 where
    here : Reaches after s s
    then_step : {t u : Builders A} → Reaches after s t → Step after t u → Reaches after s u

  -- Before the invalidation: nothing was built in a generation that is yet to come.
  abbrev IsPast : Builders A → Type 0
  IsPast s =
      All (λ b. b.generation ≤ s.list.current_generation) s.running
      × (s.list.cache.generation ≤ s.list.current_generation)

  -- After it, with `old` the generation that it ended: what began before it has that generation or
  -- an older one.
  abbrev IsLater : ℕ → Builders A → Type 0
  IsLater old s =
      (old < s.list.current_generation)
      × (All (λ b. (b.generation ≤ old) ⊎ (b.after ≡ true)) s.running
          × ((s.list.cache.generation ≤ old)
              ⊎ P s.list.cache.settings_mask s.list.cache.all_eligible))
