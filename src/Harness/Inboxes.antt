-- ===== src/Harness/Inboxes.antt =====
-- The notifications that the host has stored.
use extension_sdk_go.Prelude.{
  String, refl, sym, ap, subst, inl, inr, true, false, Option, List, [], append-nil, append_assoc,
  text_eq, eq_iff, Bool-cases, ◌≡◌, ◌∙◌, ◌∷◌, ◌++◌, if◌then◌else◌,
}
use extension_sdk_go.Json.{Json}
use extension_sdk_go.Protocol.Types.{Notification}
use extension_sdk_go.Harness.{
  Inbox, FakeKova, store, stored_for, remove, store_notification, received_notifications,
}

-- The params of the notifications of a method, in the order in which they came.
pub params_of : String → List Notification → List (Option Json)
params_of method [] = []
params_of method (n ∷ ns) =
    let rest = params_of method ns in if text_eq method n.method then n.params ∷ rest else rest

unfoldable pub store_all : List Notification → FakeKova → FakeKova
store_all [] fk = fk
store_all (n ∷ ns) fk = store_all ns (store_notification n fk)

other_name :
    (method name m : String)
    → text_eq method m ≡ true
    → text_eq name m ≡ false
    → text_eq method name ≡ false
other_name method name m k e = elim (Bool-cases (text_eq method name)) [
  | inr d ↦ d
  | inl d ↦
      let t = (eq_iff name m).1 (sym ((eq_iff method name).0 d) ∙ (eq_iff method m).0 k) in
      absurd (cc)
]

stored_for-store :
    (method : String) (n : Notification) (inbox : Inbox)
    → stored_for method (store n inbox)
      ≡ stored_for method inbox ++ (if text_eq method n.method then n.params ∷ [] else [])
unfolding stored_for store
stored_for-store method n [] = refl
stored_for-store method n ((m, stored) ∷ inbox) = elim (Bool-cases (text_eq n.method m)) [
  | inl e ↦
      let own = (eq_iff n.method n.method).1 refl in
      subst
        (λ x.
          stored_for method (store n ((x, stored) ∷ inbox))
          ≡ stored_for method ((x, stored) ∷ inbox)
            ++ (if text_eq method n.method then n.params ∷ [] else []))
        ((eq_iff n.method m).0 e)
        (elim (Bool-cases (text_eq method n.method)) [
          | inl k ↦ rw (own, k) refl
          | inr k ↦ rw (own, k) (sym (append-nil (stored_for method inbox)))
        ])
  | inr e ↦ elim (Bool-cases (text_eq method m)) [
    | inl k ↦ rw (e, k, other_name method n.method m k e) (sym (append-nil stored))
    | inr k ↦ rw (e, k) (stored_for-store method n inbox)
  ]
]

stored_for-remove : (method : String) (inbox : Inbox) → stored_for method (remove method inbox) ≡ []
unfolding stored_for remove
stored_for-remove method [] = refl
stored_for-remove method ((m, stored) ∷ inbox) = elim (Bool-cases (text_eq method m)) [
  | inl k ↦ rw k (stored_for-remove method inbox)
  | inr k ↦ rw (k, stored_for, remove) (rw k (stored_for-remove method inbox))
]

stored_for-store_all :
    (method : String) (ns : List Notification) (fk : FakeKova)
    → stored_for method (store_all ns fk).notifications
      ≡ stored_for method fk.notifications ++ params_of method ns
unfolding store_all params_of store_notification
stored_for-store_all method [] fk = sym (append-nil (stored_for method fk.notifications))
stored_for-store_all method (n ∷ ns) fk =
    stored_for-store_all method ns (store_notification n fk)
    ∙ ap (λ x. x ++ params_of method ns) (stored_for-store method n fk.notifications)
    ∙ append_assoc (stored_for method fk.notifications)
        (if text_eq method n.method then n.params ∷ [] else []) (params_of method ns)
    ∙ ap (λ x. stored_for method fk.notifications ++ x)
        (elim (Bool-cases (text_eq method n.method)) [ inl k ↦ rw k refl | inr k ↦ rw k refl ])

-- When the notifications `ns` are stored after the last call for the method, `ReceivedNotifications`
-- returns exactly the params of those for the method, in their order, and a second call returns none.
pub received_notifications-store_all :
    (method : String) (ns : List Notification) (fk : FakeKova)
    → stored_for method fk.notifications ≡ []
    → let (received, fk') = received_notifications method (store_all ns fk) in
      (received ≡ params_of method ns) × ((received_notifications method fk').0 ≡ [])
unfolding received_notifications
received_notifications-store_all method ns fk fresh = (
  stored_for-store_all method ns fk ∙ ap (λ x. x ++ params_of method ns) fresh,
  stored_for-remove method (store_all ns fk).notifications,
)
