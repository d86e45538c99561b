-- ===== src/Agent/Hooks/Sound.antt =====
-- At most one goroutine of each part has a context that is not cancelled, however the hooks are called.
use xmidt_agent.Base.{
  ◌≡◌, inr, refl, Bool, true, false, Option, some, none, List, [], ◌∷◌, arith, sym, ap, subst,
}
use xmidt_agent.Wrp.{Error}
use xmidt_agent.Lifecycle.{Service, unstarted, start, stop, start_adapter, stop_adapter}
use xmidt_agent.Lifecycle.Single.{
  IsSingle, start-IsSingle, stop-IsSingle, start_adapter-IsSingle, stop_adapter-IsSingle,
}
use xmidt_agent.Agent.Hooks.{
  Running, on_start, on_stop, cancel_each, map_service, credentials_on_start, credentials_on_stop,
}

-- An agent that was not started, with a websocket
abbrev pub fresh : {C : Type 0} → Bool → Running C
fresh has_credentials = record {
  credentials = elim has_credentials [ true ↦ some unstarted | false ↦ none ];
  websocket = some unstarted;
  adapter = unstarted;
  qos = false;
  cancelled = [];
}

-- At most one goroutine for each part that is there.
abbrev pub IsSingleIf : Option Service → Type 0
IsSingleIf none = Unit
IsSingleIf (some s) = IsSingle s

pub record IsSound {C : Type 0} (s : Running C) : Type 0 where
  pub in_credentials : IsSingleIf s.credentials
  pub in_websocket : (ws : Service) × (s.websocket ≡ some ws) × IsSingle ws
  pub in_adapter : IsSingle s.adapter

map_service-IsSingleIf :
    (f : Service → Service) (s : Option Service)
    → ((s : Service) → IsSingle s → IsSingle (f s))
    → IsSingleIf s
    → IsSingleIf (map_service f s)
map_service-IsSingleIf f none h p = tt
map_service-IsSingleIf f (some s) h p = h s p

-- The hooks in the order of their addition, and in the reverse.
module _ {C : Type 0} where
  abbrev pub begin : Option Error → Option Error → Running C → Option Error × Running C
  begin context listening s = on_start context listening (credentials_on_start s)

  abbrev pub end : List (Option C) → Running C → Running C
  end cancels s = credentials_on_stop (on_stop cancels s).1

  on_start-some :
      (listening : Option Error) (s : Running C) (ws : Service)
      → s.websocket ≡ some ws
      → on_start none listening s ≡ (
        (start_adapter listening s.adapter).0,
        record s {
          websocket = some (start ws);
          adapter = (start_adapter listening s.adapter).1;
          qos = true;
        },
      )
  unfolding on_start
  on_start-some listening s ws p = rw (on_start, p) refl

  pub on_stop-some :
      (cancels : List (Option C)) (s : Running C) (ws : Service)
      → s.websocket ≡ some ws
      → on_stop cancels s ≡ (
        none,
        record s {
          websocket = some (stop ws);
          adapter = stop_adapter s.adapter;
          qos = false;
          cancelled = cancel_each cancels s.cancelled;
        },
      )
  unfolding on_stop
  on_stop-some cancels s ws p = rw (on_stop, p) refl

  begin-IsSound :
      (context listening : Option Error) (s : Running C)
      → IsSound s
      → IsSound (begin context listening s).1
  unfolding on_start credentials_on_start
  begin-IsSound (some e) listening s h = record {
    in_credentials = map_service-IsSingleIf start s.credentials start-IsSingle h.in_credentials;
    in_websocket = h.in_websocket;
    in_adapter = h.in_adapter;
  }
  begin-IsSound none listening s h =
      let (ws, p, q) = h.in_websocket in
      subst IsSound
        (sym (
          ap (λ (r : Option Error × Running C). r.1)
            (on_start-some listening (credentials_on_start s) ws p)))
        (record {
          in_credentials =
              map_service-IsSingleIf start s.credentials start-IsSingle h.in_credentials;
          in_websocket = (start ws, refl, start-IsSingle ws q);
          in_adapter = start_adapter-IsSingle listening s.adapter h.in_adapter;
        })

  end-IsSound : (cancels : List (Option C)) (s : Running C) → IsSound s → IsSound (end cancels s)
  unfolding credentials_on_stop
  end-IsSound cancels s h =
      let (ws, p, q) = h.in_websocket in
      subst (λ (r : Option Error × Running C). IsSound (credentials_on_stop r.1))
        (sym (on_stop-some cancels s ws p))
        (record {
          in_credentials = map_service-IsSingleIf stop s.credentials stop-IsSingle h.in_credentials;
          in_websocket = (stop ws, refl, stop-IsSingle ws q);
          in_adapter = stop_adapter-IsSingle s.adapter h.in_adapter;
        })

-- Calls of the hooks; a start has the error of its context and what the adapter finds.
pub data Call (C : Type 0) : Type 0 where
  begins : Option Error → Option Error → Call C
  ends : List (Option C) → Call C

module _ {C : Type 0} where
  abbrev pub call : List (Call C) → Running C → Running C
  call [] s = s
  call (begins context listening ∷ calls) s = call calls (begin context listening s).1
  call (ends cancels ∷ calls) s = call calls (end cancels s)

  pub call-IsSound : (calls : List (Call C)) (s : Running C) → IsSound s → IsSound (call calls s)
  call-IsSound [] s h = h
  call-IsSound (begins context listening ∷ calls) s h =
      call-IsSound calls (begin context listening s).1 (begin-IsSound context listening s h)
  call-IsSound (ends cancels ∷ calls) s h =
      call-IsSound calls (end cancels s) (end-IsSound cancels s h)

  pub fresh-IsSound : (has_credentials : Bool) → IsSound (fresh {C = C} has_credentials)
  fresh-IsSound true = record {
    in_credentials = record { one = omega arith; shutdown = inr refl };
    in_websocket = (unstarted, refl, record { one = omega arith; shutdown = inr refl });
    in_adapter = record { one = omega arith; shutdown = inr refl };
  }
  fresh-IsSound false = record {
    in_credentials = tt;
    in_websocket = (unstarted, refl, record { one = omega arith; shutdown = inr refl });
    in_adapter = record { one = omega arith; shutdown = inr refl };
  }
