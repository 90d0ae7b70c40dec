-- ===== src/Lib.antt =====
-- The order service of QuickBite (`src/`): customers place orders, restaurants accept and prepare them,
-- agents deliver them, payments and settlements move the money, and administrators pay restaurants out.
--
-- The parts, and the files that model them:
--
--   Errors            every error that the code throws (`src/lib/error/AppError.ts` and each `errors.ts`),
--                     with its HTTP status, and the result of a call that may throw.
--   World             what the services share. World.State: the tables of one region's database, the
--                     keys of Redis, the messages sent to sockets, the writes sent to the core service,
--                     the permission cache of the process. World.Monad: a handler as a function of this
--                     state, and the transaction (`conn.transaction()`, commit, rollback).
--                     World.Cache: values of Redis with their lifetimes (`src/pkg/cache`). World.Rules,
--                     World.Frame, World.Checks, World.Reads, World.Stays and World.Progress: rules to
--                     reason by.
--   Order             `src/app/order`. Order.Model: enums, entities, inputs. Order.Status: the table of
--                     transitions and `assertTransition` (`service/order-status.service.ts`), with its
--                     children Lifecycle and Customer. Order.Repository: the statements of
--                     `repository/order.repo.ts` and `order-item.repo.ts`. Order.Access: the guards of
--                     `service/order.service.ts`. Order.Lines: `buildOrderLineDrafts`. Order.Update:
--                     `updateStatus`. Order.Place: `placeOrder`. Order.Queries: the paged statements.
--                     Order.Read: `getOrder` and the lists, over the hot cluster and the archive, with
--                     the answers of Order.Responses (`dto/order.response.dto.ts`).
--   Payment           `src/app/payment`. Payment.Model and Payment.Repository: ledger, sessions, webhook
--                     events with their UNIQUE columns. Payment.Session: `payment.service.ts`.
--                     Payment.Webhook: `kashier-webhook.service.ts`.
--   Finance           `src/app/finance`. Finance.Repository: the running balances. Finance.Accounts: what
--                     the tables say about money, as sums. Finance.Payout: `recordPayout`.
--   Agent             `src/app/agent`. Agent.Repository: the earnings. Agent.Service:
--                     `transition` of `service/agent.service.ts`. Agent.Settlement:
--                     `settlement.service.ts`, whose children say what its transaction writes (Writes),
--                     books (Booking), leaves behind (Money, Delivered), how it ends (Outcome,
--                     Progress), and what follows (Conservation, Once).
--                     Agent.Presence: `presence.service.ts`.
--   Assignment        `src/app/assignment/service/assignment.service.ts`. Assignment.Offers: `tickRegion`
--                     and `tryAssign`. Assignment.Claims: `claim`, `reject` and `adminAssign`.
--                     Assignment.Config: the settings of the delivery (`src/lib/config/env.ts`).
--   Http              `src/lib/http/pagination`. Http.Cursor: pages by a cursor, with a client that
--                     follows the cursors (Http.Cursor.Walk). Http.Query: what a request may ask.
--   Core              `src/lib/core-client` and `src/lib/rbac/permission-cache.service.ts`.
--   Events            `src/lib/events`: the outbox, its payloads, its statements (Events.Repository) and
--                     the pass that publishes (Events.Drain).
--   Common            shared names, tests, lists, integers, dictionaries, sums.
--   Tests             runs at concrete inputs.
--
-- How the code is read:
--
--   - A handler is a function `World → Result A × World`. Each await that leaves the process asks the
--     list `faults` of the world first: `true` makes the call throw before it has an effect. An empty
--     list means that no call fails. A statement that breaks a UNIQUE column, or
--     that updates a row which is not there and reads it back, throws `unexpected`.
--   - A transaction that throws puts the tables back as they were at its begin. Transactions run one
--     after the other; interleavings of handlers are sequences of their halves, as for two settlements
--     that have both read the order before either writes.
--   - `now` is the time of the whole request: `Date.now()` and `now()` of the database agree.
--   - The tables are those of the region that the request resolves to; `region` arguments are kept as
--     data. An entry of Redis carries the instant at which it expires.
--   - Money is in minor units: natural numbers for amounts, integers for balances and sums. Products
--     stay far below 2 ^ 53, so no rounding is modelled, and the
--     range of the database's INT columns is not: a value out of range fails as any statement may. Coordinates are multiples of 10⁻⁷ degrees.
--   - Enums are data types; equality of members compares their positions.
--   - The core service (record CoreService) and the payment provider (record PaymentProvider) are
--     parameters: any answers, errors included, after the retries of the clients. `getBranchProducts`
--     counts as an answer of the core service, its product cache included.
--   - The random public id of an order is an argument, the random event id of an outbox row is the
--     number of the row, and raw JSON is kept as text. `provider: "kashier"` and `method: "online"`,
--     the same in each payment event, are left out of the payload.
--   - The field `archive` of the world is the archive cluster, which the handlers only read. One pass
--     over the outbox of a region runs at a time. What GEOSEARCH finds, how a lifetime is rounded, the
--     text of an error, the texts of a cursor and the calendar are parameters.
--   - Each recursion is structural. Only `walk`, the client of a paged list, has fuel: the number of
--     requests that it may make. One more than the number of rows is enough.
--
-- Not modelled: the agent's task list and report; the archival worker and the consumer of core events;
-- the idempotency and cache middleware; the guards of the routes; parsing of requests, of their filters
-- and of webhook bodies; wiring, logging, configuration, sockets and migrations, which only do I/O.
pub mod Common
pub mod Errors
pub mod Order
pub mod Payment
pub mod Finance
pub mod Http
pub mod Agent
pub mod Assignment
pub mod Core
pub mod Events
pub mod World
pub mod Tests
