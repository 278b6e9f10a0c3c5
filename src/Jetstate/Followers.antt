-- ===== src/Jetstate/Followers.antt =====
-- jetstate: who follows the change notifications of the state has its value.
use jetpeer_cpp.Base.{
  Bool, true, false, List, [], ◌∷◌, ◌++◌, String, some, ◌≡◌, ◌∙◌, ap, refl, if◌then◌else◌,
  string_eq,
}
use jetpeer_cpp.Platform.{Platform, Value, at, is_null}
use jetpeer_cpp.Platform.Laws.{JsonLaws}
use jetpeer_cpp.Platform.Objects.{at-set_self, indexable-null, indexable-set}
use jetpeer_cpp.Defines.Key
use jetpeer_cpp.Defines.Rpc
use jetpeer_cpp.Defines.Verb
use jetpeer_cpp.Jetstate.{set_cb, stored, stored_after}
use jetpeer_cpp.Peer.Dispatch.Replies.{state_changes}
use jetpeer_cpp.Peer.Send.{change_message}

module _ ⦃P : Platform⦄ where
  -- The value that these messages say, to one who had this value before.
  abbrev pub follow : Value → List Value → Value
  follow view [] = view
  follow view (msg ∷ rest) = follow (at (at msg Rpc.params) Key.value) rest

  abbrev pub AllSet : List Value → Type 0
  AllSet [] = Unit
  AllSet (v ∷ vs) = (is_null v ≡ false) × AllSet vs

module _ ⦃P : Platform⦄ (same : Value → Value → Bool) (path : String) where
  open P use {null, set, of_string}

  -- The notifications of these requests, in their order, as handleMessage sends them.
  abbrev pub notified : Value → List Value → List Value
  notified current [] = []
  notified current (requested ∷ rest) =
      state_changes (some (set_cb same current)) path requested
      ++ notified (stored same current requested) rest

  module _ (laws : JsonLaws) where
    says_value : (v : Value) → at (at (change_message path v) Rpc.params) Key.value ≡ v
    says_value v =
        let named = set null Rpc.method (of_string Verb.change) in
        let entry = set null Key.path (of_string path) in
        let i = indexable-null laws in
        ap (λ x. at x Key.value)
          (at-set_self laws named (set entry Key.value v) Rpc.params
            (indexable-set laws null (of_string Verb.change) Rpc.method i))
        ∙ at-set_self laws entry v Key.value (indexable-set laws null (of_string path) Key.path i)

    null_is_null : is_null null ≡ true
    null_is_null = rw (is_null, laws.kind-null) refl

    -- One request, whether the value is another one or not.
    step_agrees :
        (b : Bool) (current v : Value) (rest : List Value)
        → is_null v ≡ false
        → ((view : Value) → follow view (notified view rest) ≡ stored_after same view rest)
        → let reported = if b then null else v in
          let kept = if b then current else v in
          follow current (
            (if is_null reported then [] else change_message path reported ∷ [])
            ++ notified kept rest)
          ≡ stored_after same kept rest
    step_agrees true current v rest present agree = rw null_is_null (agree current)
    step_agrees false current v rest present agree =
        rw present (ap (λ x. follow x (notified v rest)) (says_value v) ∙ agree v)

    -- Whoever has the value of the state and follows the change notifications has its value after any
    -- requests to set it to values that are not null, in whatever order. jsoncpp must keep its laws.
    pub followers_agree :
        (current : Value) (requests : List Value)
        → AllSet requests
        → follow current (notified current requests) ≡ stored_after same current requests
    unfolding stored_after
    followers_agree current [] set_all = refl
    followers_agree current (v ∷ rest) (present, others) =
        step_agrees (same current v) current v rest present
          (λ view. followers_agree view rest others)
