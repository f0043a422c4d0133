-- ===== src/Iocp/Delivery/Taken.antt =====
-- A packet in the port comes to a thread, whatever is in front of it.
use jnet_lib.Base.{
  ℕ, ◌+◌, ◌<◌, ◌≡◌, sym, ap, ◌∙◌, subst, true, not, none, List, [], ◌∷◌, ◌++◌, update_self, arith,
}
use jnet_lib.Iocp.{
  Result, Packet, from_kernel, contains_result, interrupt, wake_for_dispatch, Service, take_packet,
  takes, Steps, here, next,
}
use jnet_lib.Iocp.Delivery.{
  fresh_in, result_in, view, IsUnderWay, IsSound, is_complete, in_kernel, is_taken, is_caught,
  waits,
}
use jnet_lib.Iocp.Delivery.Begin.{AllSound}
use jnet_lib.Iocp.Delivery.Keeps.{Step-AllSound}
use jnet_lib.Iocp.Delivery.Drain.{concerns, find, Fronted, drain}

pub keeps_sound : {s t : Service} → Steps s t → AllSound s → AllSound t
keeps_sound here h = h
keeps_sound (next k a) h = Step-AllSound a (keeps_sound k h)

-- A thread holds the packet.
pub record Taken (k : ℕ) (s t : Service) : Type 0 where
  pub steps : Steps s t
  pub ready : t.ready k ≡ s.ready k
  pub starting : t.starting k ≡ not (t.ready k)
  pub none_begun : t.begun k ≡ s.begun k
  pub held : t.held k ≡ t.outcome k ∷ []
  pub under_way : IsUnderWay (view t k)

not_nil : {A : Type 0} (xs : List A) (x : A) → xs ++ (x ∷ []) ≡ [] → ⊥
not_nil [] x e = cc e
not_nil (y ∷ ys) x e = cc e

held_Taken :
    (k : ℕ) (xs : List Result) (r : Result) (s t : Service)
    → Steps s t
    → t.ready k ≡ s.ready k
    → t.begun k ≡ s.begun k
    → t.held k ≡ xs ++ (r ∷ [])
    → IsSound (view t k)
    → Taken k s t
held_Taken k xs r s t h e b l (is_complete a f c n u) = absurd (not_nil xs r (sym l ∙ n))
held_Taken k xs r s t h e b l (in_kernel a f c n u) = absurd (not_nil xs r (sym l ∙ n))
held_Taken k xs r s t h e b l (is_taken a f c n d u) = record {
  steps = h;
  ready = e;
  starting = a;
  none_begun = b;
  held = n;
  under_way = u;
}
held_Taken k xs r s t h e b l (is_caught a q f c n d u) = absurd (not_nil xs r (sym l ∙ n))
held_Taken k xs r s t h e b l (waits a q f c n d u) = absurd (not_nil xs r (sym l ∙ n))

-- A packet in the port comes to a thread.
module _ (k : ℕ) (s : Service) (a : AllSound s) where
  kernel-Taken : Fronted k (from_kernel k) s → (t : Service) × Taken k s t
  unfolding take_packet
  kernel-Taken w =
      let t = w.state in
      let t' = (take_packet none (from_kernel k) w.behind t).0 in
      let h : Steps s t' = next w.steps (takes none (from_kernel k) w.behind w.port) in
      (
        t',
        held_Taken k (t.held k) (t.outcome k) s t' h (ap (λ v. v.ready) w.same)
            (ap (λ v. v.begun) w.same) (update_self t.held k (t.held k ++ (t.outcome k ∷ [])))
            (keeps_sound h a k),
      )

  result-Taken : Fronted k (contains_result k) s → (t : Service) × Taken k s t
  unfolding take_packet
  result-Taken w =
      let t = w.state in
      let t' = (take_packet none (contains_result k) w.behind t).0 in
      let h : Steps s t' = next w.steps (takes none (contains_result k) w.behind w.port) in
      (
        t',
        held_Taken k (t.held k) (t.stored k) s t' h (ap (λ v. v.ready) w.same)
            (ap (λ v. v.begun) w.same) (update_self t.held k (t.held k ++ (t.stored k ∷ [])))
            (keeps_sound h a k),
      )

  front-Taken : (p : Packet) → concerns k p ≡ true → Fronted k p s → (t : Service) × Taken k s t
  front-Taken (from_kernel j) o w =
      let z : j ≡ k = ground (arith, o) in
      kernel-Taken (subst (λ i. Fronted k (from_kernel i) s) z w)
  front-Taken (contains_result j) o w =
      let z : j ≡ k = ground (arith, o) in
      result-Taken (subst (λ i. Fronted k (contains_result i) s) z w)
  front-Taken interrupt o w = absurd (cc o)
  front-Taken wake_for_dispatch o w = absurd (cc o)

  pub port-Taken : 0 < fresh_in k s.port + result_in k s.port → (t : Service) × Taken k s t
  port-Taken l =
      let f = find k s.port l in
      front-Taken f.packet f.own (drain k f.packet f.before f.after s f.split f.others)
