-- ===== src/Connect/Snippets.antt =====
-- Which snippet the page shows.
use mcpxy.Prelude.{none, some, List, [], ◌∷◌, ◌++◌, ◌≡◌, refl, arith, All, ◌∙◌}
use mcpxy.Api.Json.{ok, err}
use mcpxy.Connect.{
  InstallSnippet, Page, Event, tab_picked, url_typed, env_typed, answered, shown_error, handle, run,
}

-- The event is an edit, or the failure of a request.
abbrev pub BringsNothing : Event → Type 0
BringsNothing (answered (ok snippet)) = ⊥
BringsNothing e = Unit

handle-snippet : (p : Page) (e : Event) → BringsNothing e → (handle p e).snippet ≡ p.snippet
unfolding handle
handle-snippet p (tab_picked tab) b = ground arith
handle-snippet p (url_typed s) b = ground arith
handle-snippet p (env_typed s) b = ground arith
handle-snippet p (answered (ok snippet)) b = absurd b
handle-snippet p (answered (err e)) b = refl

run-snippet :
    (p : Page) (events : List Event) → All BringsNothing events → (run p events).snippet ≡ p.snippet
run-snippet p [] b = refl
run-snippet p (e ∷ events) (b, bs) = run-snippet (handle p e) events bs ∙ handle-snippet p e b

snippet-answered :
    (p : Page) (snippet : InstallSnippet) (after : List Event)
    → All BringsNothing after
    → (run p (answered (ok snippet) ∷ after)).snippet ≡ some snippet
unfolding handle
snippet-answered p snippet after b = run-snippet _ after b

-- The page shows the snippet that came last, for whichever tab, address and variable it was asked,
-- whatever was chosen, answered or failed before it; and it goes on showing it, with no error,
-- while others are chosen and every request for them fails.
pub shows_last :
    (p : Page) (before after : List Event) (snippet : InstallSnippet)
    → All BringsNothing after
    → let q = run p (before ++ (answered (ok snippet) ∷ after)) in
      (q.snippet ≡ some snippet) × (shown_error q ≡ none)
unfolding shown_error
shows_last p [] after snippet b =
    let same : (run p (answered (ok snippet) ∷ after)).snippet ≡ some snippet =
      snippet-answered p snippet after b in
    (same, ground arith)
shows_last p (e ∷ before) after snippet b = shows_last (handle p e) before after snippet b
