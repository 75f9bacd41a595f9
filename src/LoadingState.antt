-- ===== src/LoadingState.antt =====
-- src/queries/base/loadingState.ts: the loading phase of a read and the flags shown for it.
use react_native_dblayer.Base.{
  ℕ, ◌+◌, Bool, true, false, ◌&&◌, ◌||◌, not, ltb, ◌≡◌, arith, if◌then◌else◌,
}

pub data LoadingPhase : Type 0 where
  idle initial_loading refreshing loading_more error ready : LoadingPhase

pub record ComputePhaseInput : Type 0 where
  pub is_inactive : Bool
  pub is_error : Bool
  pub has_fetched_data : Bool
  pub has_data : Bool
  pub is_fetching : Bool
  pub is_paused : Bool
  pub committed_rows_died : Bool
  pub is_refreshing : Bool
  pub is_fetching_next_page : Bool
  pub retry_attempt : ℕ

pub record LoadingState : Type 0 where
  pub phase : LoadingPhase
  pub has_data : Bool
  pub is_ready : Bool
  pub show_skeleton : Bool
  pub show_data : Bool
  pub show_empty_state : Bool
  pub show_refresh_indicator : Bool
  pub show_footer_spinner : Bool
  pub show_error_banner : Bool
  pub is_retrying : Bool
  pub retry_attempt : ℕ
  pub is_offline : Bool

abbrev phase_eq : LoadingPhase → LoadingPhase → Bool
phase_eq idle idle = true
phase_eq initial_loading initial_loading = true
phase_eq refreshing refreshing = true
phase_eq loading_more loading_more = true
phase_eq error error = true
phase_eq ready ready = true
phase_eq _ _ = false

-- The times of an observer's last data and last error.
unfoldable pub is_fetched_result : ℕ → ℕ → Bool
is_fetched_result data_updated_at error_updated_at = ltb 0 data_updated_at || ltb 0 error_updated_at

unfoldable pub compute_phase : ComputePhaseInput → LoadingPhase
compute_phase i =
    if i.is_inactive
    then idle
    else if i.is_error && not i.has_fetched_data
    then error
    else if not i.has_data && (i.is_fetching || (i.is_paused || i.committed_rows_died))
    then initial_loading
    else if i.is_refreshing
    then refreshing
    else if i.is_fetching_next_page
    then loading_more
    else if not i.has_data && not i.has_fetched_data
    then initial_loading
    else if i.is_error
    then error
    else ready

unfoldable pub compute_loading_state : LoadingPhase → ComputePhaseInput → LoadingState
compute_loading_state phase i = record {
  phase = phase;
  has_data = i.has_data;
  is_ready = phase_eq phase ready;
  show_skeleton = phase_eq phase initial_loading;
  show_data =
      (phase_eq phase ready && i.has_data)
      || (phase_eq phase refreshing
          || (phase_eq phase loading_more || (phase_eq phase error && i.has_data)));
  show_empty_state = phase_eq phase ready && not i.has_data;
  show_refresh_indicator = phase_eq phase refreshing;
  show_footer_spinner = phase_eq phase loading_more;
  show_error_banner = phase_eq phase error;
  is_retrying = i.is_fetching && ltb 0 i.retry_attempt;
  retry_attempt = i.retry_attempt;
  is_offline = i.is_paused;
}

pub count : Bool → ℕ
count true = 1
count false = 0

-- A screen that is not inactive shows exactly one of: the skeleton, the data, the empty state, and
-- the error banner without data.
pub compute_loading_state-shows_one :
    (i : ComputePhaseInput)
    → i.is_inactive ≡ false
    → (let s = compute_loading_state (compute_phase i) i in
        count s.show_skeleton
          + count s.show_data
          + count s.show_empty_state
          + count (s.show_error_banner && not i.has_data)
        ≡ 1)
unfolding compute_loading_state compute_phase count
compute_loading_state-shows_one i active = ground arith

-- The empty state is shown only for an active read without data whose last fetch completed
-- without an error, with no request in flight or paused and no committed rows gone.
pub show_empty_state-fetched :
    (i : ComputePhaseInput)
    → (compute_loading_state (compute_phase i) i).show_empty_state ≡ true
    → (i.is_inactive ≡ false)
      × (i.has_data ≡ false)
      × (i.has_fetched_data ≡ true)
      × (i.is_error ≡ false)
      × (i.is_fetching ≡ false)
      × (i.is_paused ≡ false)
      × (i.committed_rows_died ≡ false)
unfolding compute_loading_state compute_phase
show_empty_state-fetched i h = ground arith
