-- ===== src/Llm/Permits.antt =====
-- internal/llm/llm.go: a permit that is given back, and what a permit allows.
use tinkercloud.Prelude.{
  ◌≡◌, refl, ap, ◌⊎◌, ◌≤◌, ◌<◌, ℕ, true, false, not, some, List, [], ◌∷◌, ◌++◌, Text, text_eq,
  length, length-append, if_cases, arith, text_eq_refl, text_eq_iff, if◌then◌else◌, inl, inr,
}
use tinkercloud.Prelude.Map.{Map, insert, delete, lookup-insert, lookup-delete}
use tinkercloud.Llm.{
  Request, Limits, absolute_limits, valid_limits, validate_request, estimate_input_tokens,
}
use tinkercloud.Llm.Chat.{
  World, Fault, ok, err, Ended, Auth, with_permit, with_limits, with_admission, complete,
}
use tinkercloud.Llm.Rates.{
  Mark, Service, Reserved, unavailable, limited, permit, marks, refreshed, add_mark, reserve_rate,
  has_mark, remove_mark, release_key, release, viewer_key, app_key,
}

remove_mark-last : (m : Mark) (ms : List Mark) → remove_mark m.id (ms ++ m ∷ []) ≡ ms
unfolding remove_mark has_mark
remove_mark-last m [] = ground arith
remove_mark-last m (n ∷ ms) = ground (arith, remove_mark-last m ms, has_mark_last m ms)
  where
    has_mark_last : (m : Mark) (ms : List Mark) → has_mark m.id (ms ++ m ∷ []) ≡ true
    has_mark_last m [] = ground arith
    has_mark_last m (n ∷ ms) = ground (arith, has_mark_last m ms)

marks-insert :
    (k j : Text) (v : List Mark) (m : Map (List Mark))
    → marks j (insert k v m) ≡ (if text_eq k j then v else marks j m)
unfolding marks
marks-insert k j v m = ground (arith, lookup-insert k j v m)

marks-delete :
    (k j : Text) (m : Map (List Mark))
    → marks j (delete k m) ≡ (if text_eq k j then [] else marks j m)
unfolding marks
marks-delete k j m = ground (arith, lookup-delete k j m)

marks-release_key :
    (id : ℕ) (k j : Text) (m : Map (List Mark))
    → marks j (release_key id k m) ≡ (if text_eq k j then remove_mark id (marks k m) else marks j m)
unfolding release_key
marks-release_key id k j m = of (remove_mark id (marks k m))
  where
    of :
        (ms : List Mark)
        → marks j (elim ms [ [] ↦ delete k m | e ∷ rest ↦ insert k (e ∷ rest) m ])
          ≡ (if text_eq k j then ms else marks j m)
    of [] = marks-delete k j m
    of (e ∷ rest) = marks-insert k j (e ∷ rest) m

viewer_key-app_key : (app viewer : Text) → text_eq (viewer_key app viewer) (app_key app) ≡ false
unfolding text_eq
viewer_key-app_key app viewer = refl

module _ (l : Limits) (app viewer : Text) (now : ℕ) (s s' : Service) (mark : Mark)
    (h : reserve_rate l app viewer now s ≡ (s', permit mark)) where
  abbrev before : Map (List Mark)
  before = refreshed l now (viewer_key app viewer) (app_key app) s.rates

  reserved_rates :
      s'.rates ≡ add_mark mark (app_key app) (add_mark mark (viewer_key app viewer) before)
  unfolding reserve_rate
  reserved_rates = ground (arith, h)

  below_limits :
      (length (marks (viewer_key app viewer) before) < l.viewer_requests)
      × (length (marks (app_key app) before) < l.app_requests)
  unfolding reserve_rate
  below_limits = ground (arith, h)

  marks_reserved :
      (key : Text)
      → marks key s'.rates ≡ (
          if text_eq (app_key app) key
          then marks key before ++ mark ∷ []
          else if text_eq (viewer_key app viewer) key
          then marks key before ++ mark ∷ []
          else marks key before)
  unfolding add_mark
  marks_reserved key =
      let vk = viewer_key app viewer in
      let ak = app_key app in
      let m = add_mark mark vk before in
      rw reserved_rates (
        ground (
          arith,
          marks-insert ak key (marks ak m ++ mark ∷ []) m,
          marks-insert vk key (marks vk before ++ mark ∷ []) before,
          marks-insert vk ak (marks vk before ++ mark ∷ []) before,
          viewer_key-app_key app viewer,
          text_eq_iff ak key,
          text_eq_iff vk key,
          text_eq_iff vk ak,
        ))

  -- The requests that count against a viewer and an app are never more than the limits allow.
  reserve_rate-length :
      (length (marks (viewer_key app viewer) s'.rates) ≤ l.viewer_requests)
      × (length (marks (app_key app) s'.rates) ≤ l.app_requests)
  reserve_rate-length =
      let vk = viewer_key app viewer in
      let ak = app_key app in
      ground (
        arith,
        below_limits.0,
        below_limits.1,
        marks_reserved vk,
        marks_reserved ak,
        length-append (marks vk before) (mark ∷ []),
        length-append (marks ak before) (mark ∷ []),
        viewer_key-app_key app viewer,
        text_eq_iff ak vk,
        text_eq_iff vk ak,
        text_eq_refl ak,
        text_eq_refl vk,
      )

  -- A permit that is given back leaves the marks of every key as they were before it was given.
  pub release-marks : (key : Text) → marks key (release app viewer mark s').rates ≡ marks key before
  unfolding release
  release-marks key =
      let vk = viewer_key app viewer in
      let ak = app_key app in
      let m = release_key mark.id vk s'.rates in
      ground (
        arith,
        marks-release_key mark.id ak key m,
        marks-release_key mark.id vk key s'.rates,
        marks-release_key mark.id vk ak s'.rates,
        marks_reserved key,
        marks_reserved ak,
        marks_reserved vk,
        remove_mark-last mark (marks ak before),
        remove_mark-last mark (marks vk before),
        viewer_key-app_key app viewer,
        text_eq_iff ak key,
        text_eq_iff vk key,
        text_eq_iff vk ak,
        text_eq_refl ak,
        text_eq_refl vk,
      )

reserve_rate-unavailable :
    (l : Limits) (app viewer : Text) (now : ℕ) (s s' : Service)
    → reserve_rate l app viewer now s ≡ (s', unavailable)
    → s'.rates ≡ s.rates
unfolding reserve_rate
reserve_rate-unavailable l app viewer now s s' h = ground (arith, h)

reserve_rate-limited :
    (l : Limits) (app viewer : Text) (now : ℕ) (s s' : Service)
    → reserve_rate l app viewer now s ≡ (s', limited)
    → s'.rates ≡ refreshed l now (viewer_key app viewer) (app_key app) s.rates
unfolding reserve_rate
reserve_rate-limited l app viewer now s s' h = ground (arith, h)

-- The marks of a key as they were, or without those that are too old for the limits.
abbrev pub KeepsMarks : Limits → Service → Text → Text → ℕ → Text → Service → Type 0
KeepsMarks l s app viewer now key s' =
    (marks key s'.rates ≡ marks key s.rates)
    ⊎ (marks key s'.rates
        ≡ marks key (refreshed l now (viewer_key app viewer) (app_key app) s.rates))

-- A call that the repository does not admit costs neither its viewer nor its app a request: every
-- key keeps its marks, save those that are too old to count.
pub complete-marks :
    (w : World) (s : Service) (a : Auth) (request : Request) (now : ℕ) (l : Limits) (f : Fault)
    (key : Text)
    → w.admission_limits a.app ≡ ok l
    → w.admit a.app a.viewer (estimate_input_tokens request) request.max_output_tokens now ≡ err f
    → KeepsMarks l s a.app a.viewer now key (complete w s (some a) request now).0
unfolding complete with_limits with_admission
complete-marks w s a request now l f key limits refusal =
    if_cases P (not (validate_request w.utf8_valid request absolute_limits)) (λ _. inl refl)
      (λ _. rw limits (
        if_cases P (not (valid_limits l)) (λ _. inl refl)
          (λ _.
            if_cases P (not (validate_request w.utf8_valid request l)) (λ _. inl refl)
              (λ _. of (reserve_rate l a.app a.viewer now s) refl))))
  where
    P : Service × Ended → Type 0
    P r = KeepsMarks l s a.app a.viewer now key r.0

    of :
        (r : Service × Reserved)
        → reserve_rate l a.app a.viewer now s ≡ r
        → P (with_permit w a.app a.viewer a.request_id l request now r)
    of (s', unavailable) e =
        inl (ap (marks key) (reserve_rate-unavailable l a.app a.viewer now s s' e))
    of (s', limited) e = inr (ap (marks key) (reserve_rate-limited l a.app a.viewer now s s' e))
    of (s', permit mark) e = rw refusal (inr (release-marks l a.app a.viewer now s s' mark e key))
