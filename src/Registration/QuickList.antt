-- ===== src/Registration/QuickList.antt =====
-- src/RegistrationQuickRegister.cpp: the pages of the quick register list and its short-lived cache.
pub mod Pages
pub mod Cache
pub mod Builder
use codex_of_power_ng.Base.{
  ℕ, ◌+◌, ◌-◌, Bool, true, false, not, ◌||◌, Option, none, some, List, [], ◌==◌, ltb, if◌then◌else◌,
  length, take, drop, min,
}
use codex_of_power_ng.Base.Word.{add64}

abbrev pub quick_list_cache_ttl_ms : ℕ
quick_list_cache_ttl_ms = 750

-- `BuildQuickListSettingsMask`: the bits do not overlap, so `|=` is an addition.
abbrev bit : Bool → ℕ → ℕ
bit true value = value
bit false value = 0

unfoldable pub build_quick_list_settings_mask : Bool → Bool → Bool → ℕ
build_quick_list_settings_mask normalize_registration require_tcc_displayed protect_favorites =
    bit normalize_registration 1 + bit require_tcc_displayed 2 + bit protect_favorites 4

module _ (A : Type 0) where
  pub record QuickRegisterList : Type 0 where
    pub has_more : Bool
    pub total : ℕ
    pub items : List A

  pub record QuickListCache : Type 0 where
    pub all_eligible : List A
    pub generation : ℕ
    pub built_at_ms : ℕ
    pub settings_mask : ℕ

  -- `g_quickListCache` and `g_quickListGeneration`
  pub record QuickListState : Type 0 where
    pub cache : QuickListCache
    pub current_generation : ℕ

module _ {A : Type 0} where
  unfoldable pub fill_quick_list_page : List A → ℕ → ℕ → QuickRegisterList A
  fill_quick_list_page all_eligible offset limit =
      let total_eligible = length all_eligible in
      let clamped_offset = min offset total_eligible in
      let remaining = total_eligible - clamped_offset in
      let page_size = min limit remaining in
      record {
        has_more = ltb (clamped_offset + page_size) total_eligible;
        total = total_eligible;
        items = take page_size (drop clamped_offset all_eligible);
      }

  unfoldable pub try_build_quick_list_from_cache :
      ℕ → ℕ → ℕ → ℕ → ℕ → QuickListState A → Option (QuickRegisterList A)
  unfolding fill_quick_list_page
  try_build_quick_list_from_cache offset limit generation settings_mask now_ms state =
      let cache = state.cache in
      if not (cache.generation == generation)
      then none
      else if not (cache.settings_mask == settings_mask)
      then none
      else if ltb now_ms cache.built_at_ms
          || ltb quick_list_cache_ttl_ms (now_ms - cache.built_at_ms)
      then none
      else some (fill_quick_list_page cache.all_eligible offset limit)

  unfoldable pub update_quick_list_cache : List A → ℕ → ℕ → ℕ → QuickListState A → QuickListState A
  update_quick_list_cache all_eligible generation settings_mask built_at_ms state = record state {
    cache = record {
      all_eligible = all_eligible;
      generation = generation;
      built_at_ms = built_at_ms;
      settings_mask = settings_mask;
    };
  }

  abbrev pub empty_cache : QuickListCache A
  empty_cache = record { all_eligible = []; generation = 0; built_at_ms = 0; settings_mask = 0 }

  -- `g_quickListGeneration.fetch_add(1)`
  abbrev pub bump_generation : QuickListState A → QuickListState A
  bump_generation state = record state { current_generation = add64 state.current_generation 1 }

  abbrev pub clear_quick_list_cache_storage : QuickListState A → QuickListState A
  clear_quick_list_cache_storage state = record state { cache = empty_cache }

  unfoldable pub invalidate_quick_register_cache : QuickListState A → QuickListState A
  invalidate_quick_register_cache state = clear_quick_list_cache_storage (bump_generation state)
