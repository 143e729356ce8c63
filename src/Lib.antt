-- ===== src/Lib.antt =====
-- The warehouse core of the NestJS back end (backend-nest/src): the stock ledger, sales orders, product
-- costing, journal posting, batches, cycle counts, pick lists, shipping, pricing, the sales and purchase
-- invoices, quality inspections, and purchase orders with their goods receipts.
--
-- How the parts interact: every service that moves stock calls applyStockChangeWithin,
-- reserveStockWithin or releaseReservationWithin of inventory/inventory.service.ts inside its own
-- transaction. Sales orders reserve at confirmation, deduct and release at delivery, and release at
-- cancellation. Batches keep a sub-ledger by lot and location beside the stock table. A cycle count
-- turns its variances into adjustments and one journal entry. Pick lists take their lines from the
-- batch allocation and move no stock; shipments move none either. A sales invoice is priced by the
-- quote of the pricing service, draws its lots by the batch allocation, deducts the stock, writes a
-- delivery note and posts to the journal; its cancellation returns what the note names. A purchase
-- invoice spreads its landed costs, revalues the products, receives into batches or into the stock,
-- moves its purchase order and posts to the journal. An inspection freezes its batch for the allocation.
--
-- Prelude: names passed on from the library, and Prelude/Tests (Boolean tests), Prelude/Lists,
--   Prelude/Int (signed integers), Prelude/Table (database tables as association lists), Prelude/Rows
--   (a predicate on every row of a table).
-- Result: the outcome of a service call, with the exceptions of the services as error values.
-- Stock: inventory/inventory.service.ts; a Store is the tables products, stock_levels and
--   stock_movements. apply_stock_change_within, reserve_stock_within and
--   release_reservation_within are the methods of these names; Stock/Replay runs them as the
--   endpoints adjustStock, reserveStock and releaseReservation do. Stock/Effects has what each call did,
--   Stock/Rows when it succeeds, Stock/Invariant the balance of the rows, Stock/Tenancy the tenants,
--   Stock/Receipts what a change by a given amount does to the row and the whole.
-- Sales: sales/sales.service.ts; orders and payments beside the Store. Sales/Reservation, Lifecycle,
--   Delivery and Payments have the theorems.
-- Costing: common/wms/costing.service.ts; apply_inbound_cost is applyInboundCost, allocate is allocate.
-- Ledger: common/wms/ledger-posting.service.ts; post_within is postWithin and next_entry_number is
--   nextEntryNumber, over the numbers as texts; Books is the account mapping and the journal of one
--   tenant, its amounts in hundredths as they are stored. Ledger/Numbers is about the numbers.
-- Batches: batches/batches.service.ts; a BatchStore is product_batches, batch_stock_levels and the
--   Store. Batches/Receipt has create, update and receiveIntoBatchWithin; Batches/Offers says which
--   rows may be sold, in which order, apart from the query of candidateBatches.
-- Counts: cycle-counts/cycle-counts.service.ts. record_counts is `record`.
-- Picking: fulfillment/picking.service.ts.
-- Shipping: fulfillment/shipping.service.ts; a ShippingStore is carriers, packages and shipments.
--   Shipping/Lifecycle draws the table `allowed` of updateStatus as a diagram, Shipping/Reachable and
--   Shipping/Closing are about the runs of the calls, Shipping/Parcels about the packages.
-- Pricing: pricing/pricing.service.ts. Pricing/Engine is `quote`, Pricing/Catalogue the calls on tax
--   rates, price tiers and product prices; Breaks, Totals and Defaults have the theorems.
-- SalesInvoices: sales-invoices/sales-invoices.service.ts; an InvoiceStore is the invoices, delivery
--   notes, customers and orders beside the BatchStore and the Books. Drafts has create, update and
--   remove, Posting has post, Cancelling has cancel. Shipped, Posted, Reversed, Settling, Amounts and
--   Credit have the theorems.
-- PurchaseInvoices: purchase-invoices/purchase-invoices.service.ts, and assertRateProvided of
--   accounting/exchange-rate.service.ts. Drafts has the calls on a draft and addPayment, Posting has
--   post; Derived says what a header agrees with; Arrival, Header and Upkeep have the theorems.
-- Quality: quality/quality.service.ts; record_inspection is `record`. Quality/Quarantine is about the
--   batch allocation under inspection, Quality/Verdicts about the inspections themselves.
-- Purchasing: purchasing/purchasing.service.ts; the CostStore holds the stock and the cost history.
--   Arrival is about what receiveGoods does, Retry about a receipt number sent twice.
-- The Tests modules run the operations on small concrete data.
--
-- Conventions. Ids, SKUs, locations, tenants and dates are numbers, since the code only compares them
-- (a date is also moved by whole days). `Math.round(Number(x))` of a request is an Option of an integer,
-- `none` where it is not finite. Money and costs are whole numbers of their last decimal place; the
-- rounding of toDecimalPlaces is written out, the 20 digits of decimal.js and the 32 bits of the
-- database's integers are not. A transaction is a Result: an error gives no new state. Where the source
-- commits between steps (cancelSalesOrder), the state comes back with the error too. An id or a time
-- that the database chooses is an argument, and so are the batch numbers that a purchase posting
-- makes up. Where a transaction reads through a client outside it (the allocation in the posting of a
-- sales invoice), the committed state is an argument of its own. The raw SQL on stock tables names the
-- tenant, so it is part of their keys; the other tables hold the rows that the request's tenant sees.
-- Every loop runs over a list and is structural recursion, so no fuel is used.
--
-- Not modelled: suppliers, requests that interleave within a transaction, timestamps, texts, audit, caches,
-- notifications and webhooks, queries and reports; the catalogue and the warehouses of the inventory
-- service, customers, barcodes, the batch rows of a counted batch line, the planning and walking order
-- of a pick list, the seeding of the price tiers, the cancellation of a purchase invoice (it may drive
-- a batch row below zero, which the rows of Batches cannot hold) and the drafts made from an order; the
-- other services of the back end (locations, manufacturing, personnel, devices and others).
pub mod Prelude
pub mod Result
pub mod Stock
pub mod Sales
pub mod Costing
pub mod Ledger
pub mod Batches
pub mod Counts
pub mod Picking
pub mod Shipping
pub mod Pricing
pub mod SalesInvoices
pub mod PurchaseInvoices
pub mod Quality
pub mod Purchasing
