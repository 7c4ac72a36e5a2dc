-- ===== src/Lib.antt =====
-- webmeow: the core logic of the island resort, its hotel service, its broadcast service, and the
-- stores, hooks and pages of its frontend.
--
-- Parts, and where they are:
--   Hotel     services/hotel/src. Hotel/Types is the data of prisma/schema.prisma and the dto
--             folders; Hotel/Prisma the database, an interface of operations with their documented
--             laws; Hotel/Airport is AirportService, Hotel/Events is BroadcastService with
--             hotel-events.ts; Hotel/Party and Hotel/Reservations are ReservationService
--             (resolvePartyGuests, create, findById, findActiveByGuestId, cancel); Hotel/Rooms is
--             RoomsService.findAll; Hotel/Clock is simulation-clock.ts. A call takes the database
--             and the events posted so far and returns them with its answer or HttpError.
--             `create` is `plan`, which only reads, followed by `confirm`, which writes and posts.
--   Tokens    frontend/src/features/tokens: Tokens/Rules is token-rules.ts with the tables of
--             features/hotel/types.ts, Tokens/Wallet is token-store.ts.
--   Hub       services/broadcast/src: Hub/Bus is eventBus.ts and types.ts, Hub/Routes and Hub/Admin
--             are routes/*.ts, Hub/Streams runs sequences of requests as server.ts routes them;
--             Hub/Publishing joins Hub/Admin to frontend/src/features/broadcast, handlePublish of
--             components/broadcast-panel.tsx and api/broadcast-client.ts.
--   Feed      the frontend's end of the event stream: Feed/Channels is frontend/src/types/broadcast.ts,
--             Feed/Normalize and Feed/Connection are features/broadcast/hooks/use-broadcast.ts,
--             Feed/Store is stores/events-store.ts; Feed/Journey joins it to Hub.
--   Island    frontend/src/features/map (Island/Zones), stores/session-store.ts (Island/Session),
--             features/quests (Island/Quests) and features/simulation (Island/Simulation, with the
--             ticks of use-traffic-generator.ts in Island/Simulation/Traffic), and
--             lib/simulation-time.ts (Island/Days).
--   Beach     Beach/Activities is frontend/src/mocks/handlers/beach.ts, over the session storage;
--             Beach/Booking is features/beach/hooks/use-book-activity.ts, over an interface of the
--             beach service that Beach/Booking/Mock fills with those handlers.
--             Beach/Listing is components/activities-list.tsx with activity-card.tsx and
--             activity-action.tsx, whose buttons call that hook.
--   Stay      frontend/src/features/hotel: Stay is use-reservation-form.ts and
--             use-active-reservation.ts with the calls of api/hotel-client.ts; Stay/Form is
--             components/reservation-form.tsx with schemas/reservation-form-schema.ts.
--   Parrot    frontend/src/features/parrot: Parrot/Chat is use-parrot-chat.ts and
--             use-parrot-history.ts; Parrot/Admin is parrot-tool-breakdown.tsx, parrot-quality-row.tsx
--             and the items of parrot-conversation-transcript.tsx.
--   Client    frontend/src/lib/api-client.ts: Client/Errors is getErrorMessage, Client/Sharing is
--             createJsonApi with its map of requests in flight.
--   Pages     what the pages show and do, as values: Pages/Visit is frontend/src/app/router.tsx with
--             require-session.tsx, guest-selection-page.tsx, admin-login-card.tsx, map-page.tsx,
--             guest-hud.tsx and quit-page.tsx, as one state machine of a visit; Pages/Panels is
--             features/map/components/zone-panel.tsx with the panels of the zones, use-airport.ts and
--             the lock of zone-indicator.tsx; Pages/Conversation is chat-composer.tsx and
--             chat-thread.tsx; Pages/Guide and Pages/RewardCat are quest-guide.tsx and
--             quest-reward-cat.tsx; Pages/MapView is use-map-dimensions.ts and zone-layer.tsx;
--             Pages/Lighthouse is broadcast-panel.tsx, and joins Hub/Publishing to Feed;
--             Pages/RoomSummary is hotel-admin-room-summary.tsx, and is joined to Hotel/Rooms.
--   Theme     frontend/src/components/theme-provider.tsx.
--   Prelude   shared types, tests and lemmas: native numbers, integers, lists, JSON, trimming.
-- The hotel posts its events to the broadcast service, which sends each one to every connected
-- client; the client reads it, puts it under a channel, and the zones of the map show channels. The
-- reservations of a guest credit the wallet, from which the beach's activities are paid.
--
-- Conventions. A natural number stands for a count, an integer for a day or an amount; JavaScript's
-- numbers are exact as long as they stay below 2^53, which is assumed. Loops are recursion over the
-- list they run through; only the decimal digits of a number are written on fuel, the number plus one,
-- of which each digit takes one. What happens to a page or a client is a list of events, in any order,
-- and a request that is waited for is a step of its own. A map with string keys is a function from keys.
-- Identifiers and instants that the source draws are arguments.
--
-- Parameters: the Prisma client, `fetch`, axios's addresses, the zod schemas, date-fns, and `uuid`. Each has the laws
-- that the code relies on, and a concrete instance in the tests.
--
-- Not modelled: styles and animation, the components of frontend/src/components/ui and the parts of
-- pages that only show what they are given, the administrator's summaries but for that of the rooms, the
-- airport, beach and parrot services, the gateway, when a query is asked again, the delays of the
-- simulated guests, the administrator's list of conversations, persistence in sessionStorage but for the session and the beach mock, the floating-point
-- rounding of the clock, and properties that JavaScript objects inherit.
pub mod Prelude
pub mod Hotel
pub mod Tokens
pub mod Hub
pub mod Feed
pub mod Island
pub mod Beach
pub mod Parrot
pub mod Client
pub mod Theme
pub mod Stay
pub mod Pages
