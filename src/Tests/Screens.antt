-- ===== src/Tests/Screens.antt =====
-- Loading states at concrete inputs.
use react_native_dblayer.Base.{◌≡◌, refl, true, false}
use react_native_dblayer.LoadingState.{
  ComputePhaseInput, compute_phase, compute_loading_state, count, compute_loading_state-shows_one,
  show_empty_state-fetched, error,
}
use react_native_dblayer.Base.{◌+◌, ◌&&◌, not}

abbrev nothing_found : ComputePhaseInput
nothing_found = record {
  is_inactive = false;
  is_error = false;
  has_fetched_data = true;
  has_data = false;
  is_fetching = false;
  is_paused = false;
  committed_rows_died = false;
  is_refreshing = false;
  is_fetching_next_page = false;
  retry_attempt = 0;
}

failed_first_fetch :
    compute_phase (record nothing_found { is_error = true; has_fetched_data = false }) ≡ error
unfolding compute_phase
failed_first_fetch = refl

compute_loading_state-shows_one_example :
    (let s = compute_loading_state (compute_phase nothing_found) nothing_found in
      count s.show_skeleton
        + count s.show_data
        + count s.show_empty_state
        + count (s.show_error_banner && not false)
      ≡ 1)
compute_loading_state-shows_one_example = compute_loading_state-shows_one nothing_found refl

show_empty_state-fetched_example :
    (false ≡ false)
    × (false ≡ false)
    × (true ≡ true)
    × (false ≡ false)
    × (false ≡ false)
    × (false ≡ false)
    × (false ≡ false)
unfolding compute_loading_state compute_phase
show_empty_state-fetched_example = show_empty_state-fetched nothing_found refl
