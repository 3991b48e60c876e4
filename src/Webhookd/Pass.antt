-- ===== src/Webhookd/Pass.antt =====
-- What a pass of the delivery worker may change.
use goblin_pay.Prelude.{
  ◌+◌, ◌≡◌, refl, ◌∙◌, String, Bool, true, List, [], ◌∷◌, All, Zip, Zip-refl, Zip-update_where,
  update_where,
}
use goblin_pay.Store.{
  DeliveryRow, Store, row_not_found, IsKept, Keeps, Keeps-bind, Keeps-pure, Keeps-execute,
  Keeps-query, Keeps-ok_or,
}
use goblin_pay.Webhook.{due, mark_delivered, mark_failed, is_delivery, deliver, postpone}
use goblin_pay.Webhookd.{Answer, accepted_answer, refused_answer, report, drain_each, drain}

-- What is sent stays, and so does the mark that it was.
pub record SameMessage (d e : DeliveryRow) : Type 0 where
  pub same_id : e.id ≡ d.id
  pub same_url : e.url ≡ d.url
  pub same_body : e.body ≡ d.body
  pub stays_delivered : d.delivered ≡ true → e.delivered ≡ true

SameMessage-refl : (d : DeliveryRow) → SameMessage d d
SameMessage-refl d = record {
  same_id = refl;
  same_url = refl;
  same_body = refl;
  stays_delivered = λ h. h;
}

SameMessage-trans : (c d e : DeliveryRow) → SameMessage c d → SameMessage d e → SameMessage c e
SameMessage-trans c d e p q = record {
  same_id = q.same_id ∙ p.same_id;
  same_url = q.same_url ∙ p.same_url;
  same_body = q.same_body ∙ p.same_body;
  stays_delivered = λ h. q.stays_delivered (p.stays_delivered h);
}

Zip-trans :
    (xs ys zs : List DeliveryRow)
    → Zip SameMessage xs ys
    → Zip SameMessage ys zs
    → Zip SameMessage xs zs
Zip-trans [] [] [] p q = tt
Zip-trans [] [] (z ∷ zs) p q = absurd q
Zip-trans [] (y ∷ ys) zs p q = absurd p
Zip-trans (x ∷ xs) [] zs p q = absurd p
Zip-trans (x ∷ xs) (y ∷ ys) [] p q = absurd q
Zip-trans (x ∷ xs) (y ∷ ys) (z ∷ zs) p q =
    (SameMessage-trans x y z p.0 q.0, Zip-trans xs ys zs p.1 q.1)

pub record OnlyDeliveries (s t : Store) : Type 0 where
  pub same_invoices : t.invoices ≡ s.invoices
  pub same_payments : t.payments ≡ s.payments
  pub same_messages : Zip SameMessage s.deliveries t.deliveries

OnlyDeliveries-IsKept : IsKept OnlyDeliveries
OnlyDeliveries-IsKept = record {
  reflexive = λ s. record {
    same_invoices = refl;
    same_payments = refl;
    same_messages = Zip-refl SameMessage SameMessage-refl s.deliveries;
  };
  transitive = λ s t u p q. record {
    same_invoices = q.same_invoices ∙ p.same_invoices;
    same_payments = q.same_payments ∙ p.same_payments;
    same_messages =
        Zip-trans s.deliveries t.deliveries u.deliveries p.same_messages q.same_messages;
  };
  faultless = λ s b bs e. record {
    same_invoices = refl;
    same_payments = refl;
    same_messages = Zip-refl SameMessage SameMessage-refl s.deliveries;
  };
}

always : (P : DeliveryRow → Type 0) (xs : List DeliveryRow) → ((x : DeliveryRow) → P x) → All P xs
always P [] h = tt
always P (x ∷ xs) h = (h x, always P xs h)

updated :
    (p : DeliveryRow → Bool) (f : DeliveryRow → DeliveryRow) (s : Store)
    → ((d : DeliveryRow) → SameMessage d (f d))
    → OnlyDeliveries s (record s { deliveries = update_where p f s.deliveries })
updated p f s h = record {
  same_invoices = refl;
  same_payments = refl;
  same_messages =
      Zip-update_where SameMessage p f s.deliveries (λ d e. SameMessage-refl d)
        (always (λ d. p d ≡ true → SameMessage d (f d)) s.deliveries (λ d e. h d));
}

mark_delivered-OnlyDeliveries : (i : String) → Keeps OnlyDeliveries (mark_delivered i)
unfolding mark_delivered
mark_delivered-OnlyDeliveries i = Keeps-execute OnlyDeliveries-IsKept _ (λ s.
    updated (is_delivery i) (deliver s.clock) s (λ d. record {
      same_id = refl;
      same_url = refl;
      same_body = refl;
      stays_delivered = λ h. refl;
    }))

mark_failed-OnlyDeliveries : (i error : String) → Keeps OnlyDeliveries (mark_failed i error)
unfolding mark_failed
mark_failed-OnlyDeliveries i error =
    Keeps-bind OnlyDeliveries-IsKept (Keeps-query OnlyDeliveries-IsKept _) (λ o.
      Keeps-bind OnlyDeliveries-IsKept (Keeps-ok_or OnlyDeliveries-IsKept o row_not_found) (λ d.
        Keeps-execute OnlyDeliveries-IsKept _ (λ s.
          updated (is_delivery i) (postpone (d.attempts + 1) error s.clock) s (λ e. record {
            same_id = refl;
            same_url = refl;
            same_body = refl;
            stays_delivered = λ h. h;
          }))))

report-OnlyDeliveries : (d : DeliveryRow) (a : Answer) → Keeps OnlyDeliveries (report d a)
unfolding report
report-OnlyDeliveries d accepted_answer = mark_delivered-OnlyDeliveries d.id
report-OnlyDeliveries d (refused_answer error) = mark_failed-OnlyDeliveries d.id error

drain_each-OnlyDeliveries :
    (post : DeliveryRow → Answer) (ds : List DeliveryRow)
    → Keeps OnlyDeliveries (drain_each post ds)
unfolding drain_each
drain_each-OnlyDeliveries post [] = Keeps-pure OnlyDeliveries-IsKept _
drain_each-OnlyDeliveries post (d ∷ ds) =
    Keeps-bind OnlyDeliveries-IsKept (report-OnlyDeliveries d (post d))
      (λ _. drain_each-OnlyDeliveries post ds)

-- Whatever the shop answers and whatever statements fail, a pass of the worker touches no invoice
-- and no payment, loses no delivery, changes neither the address nor the body of one, and never
-- takes back that one was delivered.
pub drain-OnlyDeliveries :
    (post : DeliveryRow → Answer) (s : Store) → OnlyDeliveries s (drain post s).1
unfolding drain due
drain-OnlyDeliveries post s =
    let pass =
      Keeps-bind OnlyDeliveries-IsKept (Keeps-query OnlyDeliveries-IsKept _)
        (λ ds. drain_each-OnlyDeliveries post ds) in
    pass.kept s
