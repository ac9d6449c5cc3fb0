-- ===== src/Orchestrator/Run/Keeps.antt =====
-- What a pipeline run keeps, whatever its agents answer: each invariant that its single writes keep.
use danah_v.Prelude.{
  ℕ, ◌+◌, Option, none, some, List, [], ◌∷◌, inl, inr, Bool-cases, Option-cases, ltb, find_first,
}
use danah_v.Enums.{AgentName, ItemStatus}
use danah_v.Models.{Briefing, Insight, Db, IngestedItem, RunStats}
use danah_v.Session.{Env, Session, Action, commit}
use danah_v.Session.Keeps.{Keeps, Both, Keeps-pure, Keeps-bind}
use danah_v.Agents.{Agents, ItemTriage, BriefingOutput, MemoryDraft, DraftInsight, ok_output}
use danah_v.Orchestrator.{
  recent_items, has_item_id, triage_item, persist_insights, persist_briefing, create_memory,
}
use danah_v.Orchestrator.Drafts.{
  Writes, persist_insights-Keeps, persist_briefing-Keeps, create_memory-Keeps,
}
use danah_v.Orchestrator.Task.{lift, pure, tell}
use danah_v.Orchestrator.Task.Keeps.{KeepsTask, KeepsTask-lift, KeepsTask-pure, KeepsTask-bind}
use danah_v.Orchestrator.Run.{
  Config, spend, triage_found, triage_one, triage_all, signal_output, run_signal, run_briefing,
  remember_all, run_memory, save_triage, triage_items, save_briefing, save_memories, memory_output,
  drafted_insights, drafted_briefing,
}
use danah_v.Orchestrator.Run.Fanout.{
  on_own_session, persist_and_commit, isolated, gather, run_analysis_fanout,
}

-- The agents' own steps keep the invariant.
pub record AgentsKeep (P : Db → Type 0) (agents : Agents) : Type 0 where
  pub signal : (ids : List ℕ) → Keeps P (agents.signal ids)
  pub analyse : (name : AgentName) → Keeps P (agents.analyse name)
  pub brief : Keeps P agents.brief
  pub render_arabic : (english : BriefingOutput) → Keeps P (agents.render_arabic english)
  pub remember :
      (insights : List Insight) (briefing : Option Briefing) (st : RunStats)
      → Keeps P (agents.remember insights briefing st)

on_own_session-Keeps :
    (P : Db → Type 0) {A : Type 0} (m : Action A) → Keeps P m → Keeps P (on_own_session m)
on_own_session-Keeps P m k = record {
  at = λ s h. let h' = k.at (record s { current = s.committed }) (h.1, h.1) in (h'.1, h'.1);
}

module _ (env : Env) (P : Db → Type 0) (closed : Writes env P) where
  write_items :
      (s : Session) (rows : List IngestedItem)
      → Both P s
      → Both P (record s { current = record s.current { items = rows } })
  write_items s rows h = (closed.items s.current rows h.0, h.1)

  triage_found-Keeps :
      (threshold id relevance : ℕ) (triaged : List ℕ)
      → KeepsTask P (triage_found threshold id relevance triaged)
  unfolding triage_found
  triage_found-Keeps threshold id relevance triaged = record {
    at = λ st h. elim (Bool-cases (ltb relevance threshold)) [
      | inl e ↦ rw e (
          write_items st.session
            (triage_item id ItemStatus.archived relevance st.session.current).items h)
      | inr e ↦ rw e (
          write_items st.session
            (triage_item id ItemStatus.triaged relevance st.session.current).items h)
    ];
  }

  triage_one-Keeps :
      (threshold : ℕ) (t : ItemTriage) (triaged : List ℕ)
      → KeepsTask P (triage_one threshold t triaged)
  unfolding triage_one
  triage_one-Keeps threshold t triaged = record {
    at = λ st h. elim (Option-cases t.item_id) [
      | inl e ↦ rw e h
      | inr (id, e) ↦ elim (Option-cases (find_first (has_item_id id) st.session.current.items)) [
        | inl f ↦ rw (e, f) h
        | inr (i, f) ↦ rw (e, f) ((triage_found-Keeps threshold id t.relevance triaged).at st h)
      ]
    ];
  }

  triage_all-Keeps :
      (threshold : ℕ) (ts : List ItemTriage) (triaged : List ℕ)
      → KeepsTask P (triage_all threshold ts triaged)
  unfolding triage_all
  triage_all-Keeps threshold [] triaged = KeepsTask-pure P triaged
  triage_all-Keeps threshold (t ∷ ts) triaged =
      KeepsTask-bind P (triage_one threshold t triaged) (λ acc. triage_all threshold ts acc)
        (triage_one-Keeps threshold t triaged) (triage_all-Keeps threshold ts)

module _ (env : Env) (cfg : Config) (agents : Agents) (run_id : ℕ) (P : Db → Type 0)
    (closed : Writes env P) (keep : AgentsKeep P agents) where
  save_triage-Keeps :
      (o : Option (List ItemTriage)) → KeepsTask P (save_triage env cfg agents run_id o)
  unfolding save_triage
  save_triage-Keeps none = record { at = λ st h. h }
  save_triage-Keeps (some triage) =
      KeepsTask-bind P (triage_all cfg.signal_relevance_threshold triage []) _
        (triage_all-Keeps env P closed cfg.signal_relevance_threshold triage [])
        (λ triaged.
          KeepsTask-bind P (lift commit) (λ _. pure triaged) (record { at = λ st h. (h.0, h.0) })
            (λ _. KeepsTask-pure P triaged))

  triage_items-Keeps : (ids : List ℕ) → KeepsTask P (triage_items env cfg agents run_id ids)
  unfolding triage_items signal_output
  triage_items-Keeps [] = KeepsTask-pure P []
  triage_items-Keeps (i ∷ rest) =
      KeepsTask-bind P (lift (agents.signal (i ∷ rest))) _
        (KeepsTask-lift P _ (keep.signal (i ∷ rest)))
        (λ result. record {
          at = λ st h.
              (save_triage-Keeps (ok_output result)).at
                (tell (spend result.tokens_in result.tokens_out result.cost_usd) st).1 h;
        })

  pub run_signal-Keeps : (limit : ℕ) → KeepsTask P (run_signal env cfg agents run_id limit)
  unfolding run_signal
  run_signal-Keeps limit = record {
    at = λ st h. (triage_items-Keeps (recent_items _ limit st.session.current)).at st h;
  }

  save_briefing-Keeps :
      (o : Option BriefingOutput) → KeepsTask P (save_briefing env cfg agents run_id o)
  unfolding save_briefing
  save_briefing-Keeps none = record { at = λ st h. h }
  save_briefing-Keeps (some english) =
      KeepsTask-bind P (lift (persist_briefing env (some run_id) agents.render_arabic english))
        (λ _. tell (λ st. record st { briefings = st.briefings + 1 }))
        (KeepsTask-lift P _ (
          persist_briefing-Keeps env (some run_id) P closed agents.render_arabic keep.render_arabic
            english))
        (λ _. record { at = λ st h. h })

  pub run_briefing-Keeps : KeepsTask P (run_briefing env cfg agents run_id)
  unfolding run_briefing
  run_briefing-Keeps =
      KeepsTask-bind P (lift agents.brief) _ (KeepsTask-lift P _ keep.brief) (λ result. record {
        at = λ st h.
            (save_briefing-Keeps (ok_output result)).at
              (tell (spend result.tokens_in result.tokens_out result.cost_usd) st).1 h;
      })

  remember_all-Keeps :
      (drafts : List MemoryDraft) → KeepsTask P (remember_all env cfg agents run_id drafts)
  unfolding remember_all
  remember_all-Keeps [] = KeepsTask-pure P tt
  remember_all-Keeps (d ∷ drafts) =
      KeepsTask-bind P (lift (create_memory env (some run_id) d)) _
        (KeepsTask-lift P _ (create_memory-Keeps env (some run_id) P closed d))
        (λ _. record {
          at = λ st h.
              (remember_all-Keeps drafts).at
                (tell (λ t. record t { memories = t.memories + 1 }) st).1 h;
        })

  save_memories-Keeps :
      (o : Option (List MemoryDraft)) → KeepsTask P (save_memories env cfg agents run_id o)
  unfolding save_memories
  save_memories-Keeps none = record { at = λ st h. h }
  save_memories-Keeps (some drafts) =
      KeepsTask-bind P (remember_all env cfg agents run_id drafts) (λ _. lift commit)
        (remember_all-Keeps drafts) (λ _. record { at = λ st h. (h.0, h.0) })

  pub run_memory-Keeps : KeepsTask P (run_memory env cfg agents run_id)
  unfolding run_memory memory_output
  run_memory-Keeps = record {
    at = λ st h.
        (KeepsTask-bind P
            (lift (
              agents.remember (drafted_insights run_id st.session.current)
                (drafted_briefing run_id st.session.current) st.stats))
            (memory_output env cfg agents run_id) (KeepsTask-lift P _ (keep.remember _ _ st.stats))
            (λ result. record {
              at = λ st' h'.
                  (save_memories-Keeps (ok_output result)).at
                    (tell (spend result.tokens_in result.tokens_out result.cost_usd) st').1 h';
            })).at
          st h;
  }

  persist_and_commit-Keeps :
      (name : AgentName) (o : Option (List DraftInsight))
      → Keeps P (persist_and_commit env agents run_id name o)
  unfolding persist_and_commit
  persist_and_commit-Keeps name none = Keeps-pure P 0
  persist_and_commit-Keeps name (some drafts) =
      Keeps-bind P (persist_insights env (some run_id) name drafts) _
        (persist_insights-Keeps env (some run_id) P closed name drafts)
        (λ created. record { at = λ s h. (h.0, h.0) })

  isolated-Keeps : (name : AgentName) → Keeps P (isolated env agents run_id name)
  unfolding isolated
  isolated-Keeps name = Keeps-bind P (agents.analyse name) _ (keep.analyse name) (λ result.
      Keeps-bind P (persist_and_commit env agents run_id name (ok_output result)) _
        (persist_and_commit-Keeps name (ok_output result)) (λ created. Keeps-pure P _))

  gather-Keeps :
      (names : List AgentName) (s : Session)
      → Both P s
      → Both P (gather env agents run_id names s).1
  unfolding gather
  gather-Keeps [] s h = h
  gather-Keeps (name ∷ names) s h =
      gather-Keeps names (on_own_session (isolated env agents run_id name) s).1
        ((on_own_session-Keeps P _ (isolated-Keeps name)).at s h)

  pub run_analysis_fanout-Keeps :
      (names : List AgentName) → KeepsTask P (run_analysis_fanout env agents run_id names)
  unfolding run_analysis_fanout
  run_analysis_fanout-Keeps names = record { at = λ st h. gather-Keeps names st.session h }
