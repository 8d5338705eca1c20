-- ===== src/Conf/History.antt =====
-- The configurations that runs of conf_set_string of src/conf.c make.
use fireflymediaserver.Prelude.{ℕ, ◌≡◌, refl, sym, ap, ◌∙◌, subst, Bool, inl, inr, none, Bytes}
use fireflymediaserver.Ll.{ll_create, ll_fetch_item, fetch_from}
use fireflymediaserver.SmartParser.State
use fireflymediaserver.SmartParser.State.{Outcome, done}
use fireflymediaserver.Conf.{ConfError, System}
use fireflymediaserver.Conf.Tree.{Conf, absent, wrong, at, holds}
use fireflymediaserver.Conf.Set.{conf_set_string}
use fireflymediaserver.Conf.Lists.{ListOk}
use fireflymediaserver.Conf.Lists.Calls.{create-ListOk}
use fireflymediaserver.Conf.Invariant.{section_of, WellFormed}
use fireflymediaserver.Conf.Runs.{Returns, conf_set_string-Returns}

-- The configurations that calls make of one without sections.
pub data Reachable (system : System) : Conf → Type 0 where
  empty : (conf : Conf) → conf.main ≡ ll_create → Reachable system conf
  set :
      {conf : Conf} (section key value : Bytes) (verify : Bool) (error : ConfError) (conf' : Conf)
      → Reachable system conf
      → conf_set_string system section key value verify conf ≡ done (error, conf')
      → Reachable system conf'

empty_fetch : (s : Bytes) → ll_fetch_item ll_create s ≡ none
unfolding ll_fetch_item fetch_from
empty_fetch s = refl

absent_ne : (a : ℕ) → absent ≡ at a → ⊥
absent_ne a h = cc

absent_wrong : absent ≡ wrong → ⊥
absent_wrong h = cc

empty-WellFormed : (conf : Conf) → conf.main ≡ ll_create → WellFormed conf
empty-WellFormed conf e =
    let nothing : (s : Bytes) → section_of conf s ≡ absent =
      λ s. ap (λ pl. holds (ll_fetch_item pl s)) e ∙ ap holds (empty_fetch s) in
    record {
      main_ok = subst ListOk (sym e) create-ListOk;
      typed = λ s h. absent_wrong (sym (nothing s) ∙ h);
      placed = λ s a h. absurd (absent_ne a (sym (nothing s) ∙ h));
      apart = λ s s' a h h'. absurd (absent_ne a (sym (nothing s) ∙ h));
      fits = λ s a k x h found. absurd (absent_ne a (sym (nothing s) ∙ h));
    }

overrun_ne : {A : Type 0} (a : A) → State.overrun ≡ done a → ⊥
overrun_ne a h = cc

done_eq : {A : Type 0} (a b : A) → done a ≡ done b → a ≡ b
done_eq a b h = cc

Returns-done :
    (r : Outcome (ConfError × Conf)) (e : ConfError) (conf : Conf)
    → Returns r
    → r ≡ done (e, conf)
    → WellFormed conf
Returns-done r e conf (inl o) h = absurd (overrun_ne (e, conf) (sym o ∙ h))
Returns-done r e conf (inr (e', conf', i, wf)) h =
    let same : conf' ≡ conf = ap (λ p. p.1) (done_eq (e', conf') (e, conf) (sym i ∙ h)) in
    subst WellFormed same wf

-- Whatever is set, one call after the other, in a configuration that had no section, it has its shape:
-- each section is a list of its own with no key twice but for case, and each key has a string or a list
-- of values, as the element wants it, at an address that no section has.
pub Reachable-WellFormed : (system : System) (conf : Conf) → Reachable system conf → WellFormed conf
Reachable-WellFormed system _ (empty conf e) = empty-WellFormed conf e
Reachable-WellFormed system _ (set {conf = old} section key value verify error conf r h) =
    Returns-done _ error conf
      (conf_set_string-Returns system section key value verify old
        (Reachable-WellFormed system old r))
      h
