-- ===== src/Detect.antt =====
-- internal/detect: the sweep over a paged list, the three detectors, and the collapse of their
-- sightings. A sweep reads each page once, so an endpoint is a function of the options of the
-- call; contexts are left out, and an error is the text that it prints.
pub mod Sources
pub mod Collapse
pub mod Sweep
pub mod Newest
pub mod Sightings
pub mod Failures
mod Examples
use rzp_rebound.Prelude.{
  ℕ, zero, suc, ◌*◌, String, Bool, ◌==◌, not, Option, none, some, List, [], ◌∷◌, ◌++◌, inl, inr,
  contains, length, if◌then◌else◌, ℤ, pos, pos_part, ltb, ltb_ℤ, lookup_or, wrap64,
}
use rzp_rebound.Time.{Duration, Instant, hour}
use rzp_rebound.Razorpay.{Notes, Payment, ListOptions, Lister}
use rzp_rebound.RiskItem.{RiskItem, Customer, dedupe_key}

abbrev pub default_page_size : ℤ
default_page_size = pos 100

abbrev pub default_max_pages : ℤ
default_max_pages = pos 20

abbrev pub default_grace : Duration
default_grace = pos (24 * hour)

abbrev note_key_customer_name : String
note_key_customer_name = "customer_name"

abbrev note_key_customer_email : String
note_key_customer_email = "customer_email"

abbrev note_key_customer_contact : String
note_key_customer_contact = "customer_contact"

-- The clock of the settings is the instant that it reads.
pub record Config : Type 0 where
  pub page_size : ℤ
  pub max_pages : ℤ
  pub grace : Duration
  pub since : ℤ
  pub now : Instant

unfoldable pub page_size : Config → ℤ
page_size c = if ltb_ℤ (pos 0) c.page_size then c.page_size else default_page_size

unfoldable pub max_pages : Config → ℤ
max_pages c = if ltb_ℤ (pos 0) c.max_pages then c.max_pages else default_max_pages

unfoldable pub grace : Config → Duration
grace c = if ltb_ℤ (pos 0) c.grace then c.grace else default_grace

-- The options of one list call, whose offset is a Go int.
unfoldable pub page_options : Config → ℕ → ListOptions
unfolding page_size
page_options cfg read = record {
  count = page_size cfg;
  skip = wrap64 (pos (read * pos_part (page_size cfg)));
  from = cfg.since;
  to = pos 0;
}

module _ {A : Type 0} (cfg : Config) (page : Lister A) where
  -- The loop of sweep with `left` pages to go, from the page numbered `read` on: the records that
  -- it appends, and its error.
  unfoldable pub sweep_from : ℕ → ℕ → List A × Option String
  sweep_from zero read = ([], none)
  sweep_from (suc left) read =
      let rest = sweep_from left (suc read) in
      elim (page (page_options cfg read)) [
        | inl err ↦ ([], some err)
        | inr items ↦
            if ltb (length items) (pos_part (page_size cfg))
            then (items, none)
            else (items ++ rest.0, rest.1)
      ]

  unfoldable pub sweep : List A × Option String
  unfolding max_pages
  sweep = sweep_from (pos_part (max_pages cfg)) 0

-- A missing key of a map, a nil one included, reads as the empty text.
unfoldable pub customer_from_notes : Notes → Customer
customer_from_notes notes = record {
  name = lookup_or "" note_key_customer_name notes;
  email = lookup_or "" note_key_customer_email notes;
  contact = lookup_or "" note_key_customer_contact notes;
}

unfoldable pub customer_from_failed_payment : Payment → Notes → Customer
unfolding customer_from_notes
customer_from_failed_payment payment notes =
    let customer = customer_from_notes notes in
    record customer {
      email = if payment.email == "" then customer.email else payment.email;
      contact = if payment.contact == "" then customer.contact else payment.contact;
    }

-- The loop of Collapse, `seen` being the keys that it has met.
unfoldable pub collapse_from : List String → List RiskItem → List RiskItem
collapse_from seen [] = []
collapse_from seen (item ∷ items) =
    let key = dedupe_key item in
    let skipped = collapse_from seen items in
    let kept = collapse_from (key ∷ seen) items in
    if contains seen key then skipped else item ∷ kept

unfoldable pub collapse : List RiskItem → List RiskItem
collapse items = collapse_from [] items
