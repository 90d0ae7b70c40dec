-- ===== src/Tests/Payments.antt =====
-- Payouts and webhooks at concrete inputs.
use quick_bite_order_service.Common.{
  String, [], arith, false, nat_eq, refl, some, some-injective, string_eq, subst, true, ◌==◌, ◌∷◌,
  ◌≡◌, ◌⊎◌,
}
use quick_bite_order_service.Errors.{err, invalid_webhook_signature, payment_provider_unavailable}
use quick_bite_order_service.Finance.Model.{CreatePayoutRequest}
use quick_bite_order_service.Finance.Payout.{record_payout}
use quick_bite_order_service.Finance.Payout.Exact.{PaidOut, record_payout-Tables}
use quick_bite_order_service.Finance.Payout.Sound.{Solvent, record_payout-Solvent}
use quick_bite_order_service.Order.Model.{
  PaymentMethod, actor_eq, cod, delivered, pending_payment, status_eq,
}
use quick_bite_order_service.Payment.Model.{KashierWebhookEnvelope}
use quick_bite_order_service.Payment.Session.{PaymentProvider}
use quick_bite_order_service.Payment.Webhook.{process_kashier_webhook}
use quick_bite_order_service.Payment.Webhook.Once.{
  process_kashier_webhook-unsigned, process_kashier_webhook_once,
}
use quick_bite_order_service.Tests.Sample.{sample_order, sample_world}
use quick_bite_order_service.World.Frame.{Tables}
use quick_bite_order_service.World.State.{World}

abbrev world : World
world = sample_world (sample_order delivered cod ∷ []) (false ∷ false ∷ [])

abbrev request : CreatePayoutRequest
request = record {
  restaurant_id = 3;
  amount = 400;
  currency = "EGP";
  provider_reference_id = "bank-1";
}

record_payout-Tables_example :
    Tables
      (λ d. (d ≡ world.db) ⊎ PaidOut request "eg" "k1" 1000 world.db d)
      (record_payout request "eg" "k1" world)
record_payout-Tables_example = record_payout-Tables request "eg" "k1" world

record_payout-Solvent_example : Tables Solvent (record_payout request "eg" "k1" world)
record_payout-Solvent_example = record_payout-Solvent request "eg" "k1" world (ground arith, tt)

abbrev provider : PaymentProvider
provider = record {
  new_session = λ o. err payment_provider_unavailable;
  verify = λ envelope s. s == "good";
  session_ttl_ms = 900000;
}

abbrev envelope : KashierWebhookEnvelope
envelope = record {
  event = "pay";
  merchant_order_id = "o1";
  transaction_id = "t1";
  status = "SUCCESS";
  signature_keys = [];
}

-- The row is written, and then the look-up of the order fails.
abbrev unpaid : World
unpaid = sample_world (sample_order pending_payment PaymentMethod.online ∷ []) (false ∷ true ∷ [])

abbrev retried : World
retried = record unpaid {
  db = (process_kashier_webhook provider envelope (some "good") "eg" unpaid).1.db;
  faults = [];
}

process_kashier_webhook_once_example :
    Tables
      (λ d. d ≡ retried.db)
      (process_kashier_webhook provider envelope (some "good") "eg" retried)
process_kashier_webhook_once_example =
    process_kashier_webhook_once provider envelope "good" "eg" unpaid retried (true ∷ [])
      (some "good") refl refl refl refl

forged : (s : String) → some "bad" ≡ some s → (s == "good") ≡ false
forged s e = subst (λ x. (x == "good") ≡ false) (some-injective e) refl

process_kashier_webhook-unsigned_example :
    process_kashier_webhook provider envelope (some "bad") "eg" unpaid
    ≡ (err invalid_webhook_signature, unpaid)
process_kashier_webhook-unsigned_example =
    process_kashier_webhook-unsigned provider envelope (some "bad") "eg" unpaid forged
